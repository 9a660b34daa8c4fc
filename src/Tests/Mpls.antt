-- ===== src/Tests/Mpls.antt =====
-- Labels, the allocator, the label table and MPLS over UDP at small inputs.
use gouter.Base.{
  ℕ, Bool, true, false, ◌≡◌, refl, List, [], ◌∷◌, ◌++◌, none, some, arith, take, ◌≤◌, ◌<◌, ◌⊎◌,
  ◌==◌, ◌&&◌, nat_eq,
}
use gouter.Netip.{v4, invalid, addr_eq}
use gouter.Transport.{Packet, packet_ip, packet_mpls}
use gouter.Mpls.Label.{
  Entry, label_max, label_reserved_max, parse_label, encode_label, push_labels, has_label,
}
use gouter.Mpls.Label.Codec
use gouter.Mpls.Label.Stack
use gouter.Mpls.Label.Stack.{pop_times, read_stack}
use gouter.Mpls.Allocator.{Allocator, allocate}
use gouter.Mpls.Allocator.Cycle
use gouter.Mpls.Allocator.Cycle.{allocate_many, run_of}
use gouter.Mpls.Allocator.Race
use gouter.Mpls.Allocator.Race.{run, clash, adding, done}
use gouter.Mpls.Lfib.{LfibEntry, Lfib, op_pop}
use gouter.Mpls.Udp.{AddrPort, UdpTransport, write, Event, datagram, failed, closed}
use gouter.Mpls.Udp.Laws as UdpLaws
use gouter.Mpls.Udp.Laws.{SentOnce, received}

abbrev payload : List ℕ
payload = 0x45 ∷ 0 ∷ 0 ∷ 20 ∷ []

abbrev labelled : List ℕ
labelled = 0x00 ∷ 0x06 ∷ 0x41 ∷ 0x40 ∷ payload

abbrev label_100 : Entry
label_100 = record { label = 100; tc = 0; bottom = true; ttl = 64 }

parse_label-encode_label_both_example :
    (parse_label (encode_label 0x123456 7 true 255 ++ payload)
      ≡ some (record { label = label_max; tc = 7; bottom = true; ttl = 255 }))
    × (encode_label label_100.label label_100.tc label_100.bottom label_100.ttl ≡ take 4 labelled)
unfolding parse_label
parse_label-encode_label_both_example =
    Codec.parse_label-encode_label_both 0x123456 7 true 255 payload labelled {e = label_100}
      (omega arith) (omega arith) refl

push_labels-readers_example :
    (pop_times 2 (push_labels payload (100 ∷ 0x200000 ∷ [])) ≡ some (100 ∷ label_max ∷ [], payload))
    × (read_stack 5 (push_labels payload (100 ∷ 0x200000 ∷ []))
        ≡ some (100 ∷ [], push_labels payload (0x200000 ∷ [])))
push_labels-readers_example = Stack.push_labels-readers 4 payload 100 (0x200000 ∷ [])

abbrev at_label : ℕ → Allocator
at_label n = record { next = n }

allocate_total_example :
    (label : ℕ) × (a' : Allocator) × (allocate (at_label 0xfffff) ≡ some (label, a'))
    × (label_reserved_max < label)
    × (label ≤ label_max)
allocate_total_example = Cycle.allocate_total (at_label 0xfffff)

run-clash_example :
    (run (record { alloc = at_label 0xfffff; threads = adding ∷ adding ∷ [] }) clash).threads
    ≡ done 17 ∷ done 17 ∷ []
run-clash_example = Race.run-clash (at_label 0xfffff) (omega arith)

abbrev pop_50 : LfibEntry
pop_50 = record { in_label = 50; op = op_pop; out_labels = []; next_hop = invalid; transport = "" }

abbrev table : Lfib
table = record { entries = (50, pop_50) ∷ []; alloc = at_label 16 }

abbrev peer : ℕ → AddrPort
peer n = record { addr = v4 n; port = 6635 }

-- Only the second peer takes a datagram.
abbrev second_takes : AddrPort → List ℕ → Bool
second_takes p bytes = p.port == 6635 && p.addr == v4 2

abbrev udp : UdpTransport
udp = record {
  name = "mpls-udp";
  local_addr = peer 3;
  peers = (v4 1, peer 1) ∷ (v4 2, peer 2) ∷ [];
  closed = false;
}

abbrev mpls_packet : Packet
mpls_packet = record { kind = packet_mpls; bytes = labelled; transport = "wg0" }

write-SentOnce_example :
    ((packet_mpls ≡ packet_mpls)
      × (has_label labelled ≡ true)
      × SentOnce second_takes udp.peers labelled (write second_takes udp mpls_packet))
    ⊎ (((packet_mpls ≡ packet_ip) ⊎ (has_label labelled ≡ false))
        × (write second_takes udp mpls_packet ≡ ([], none)))
write-SentOnce_example = UdpLaws.write-SentOnce second_takes udp mpls_packet

abbrev events : List Event
events = datagram (1 ∷ 2 ∷ []) ∷ failed ∷ datagram labelled ∷ closed ∷ datagram labelled ∷ []
