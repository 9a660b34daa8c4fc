-- ===== src/Tests/Packets.antt =====
-- The checksum and the packet paths at small inputs.
use gouter.Base.{
  string_eq, nat_eq, ℕ, false, ◌≡◌, ◌↔◌, refl, subst, ◌==◌, Bool-cases, List, [], ◌∷◌, ◌++◌, some,
  arith, ◌⊎◌, inl, ◌%◌, length,
}
use gouter.Base.Dict
use gouter.Netip.{invalid, addr_eq}
use gouter.Transport.{Packet, packet_ip}
use gouter.Checksum.{checksum}
use gouter.Checksum.Fold.{words}
use gouter.Mpls.Label.{push_label, push_labels}
use gouter.Mpls.Lfib.{Lfib, LfibEntry, LabelOp, op_pop, op_swap, lookup_label}
use gouter.Netstack.Manager.{Manager}
use gouter.Router.Header.{refresh_checksum, detect_packet_type}
use gouter.Router.Header.Verify
use gouter.Router.Packets.{Router, Transport, handle_ip_packet, handle}
use gouter.Router.Packets.Ends
use gouter.Router.Packets.Ip
use gouter.Router.Packets.Pops
use gouter.Tests.Tables.{fib, resolver}

-- An IPv4 header from 10.0.0.1 to 10.1.2.3, its TTL and its checksum field given.
abbrev header : ℕ → List ℕ
header ttl =
    0x45 ∷ 0 ∷ 0 ∷ 20 ∷ 0 ∷ 1 ∷ 0 ∷ 0 ∷ ttl ∷ 17 ∷ 0 ∷ 0 ∷ 10 ∷ 0 ∷ 0 ∷ 1 ∷ 10 ∷ 1 ∷ 2 ∷ 3 ∷ []

abbrev ip_packet : ℕ → Packet
ip_packet ttl = record { kind = packet_ip; bytes = header ttl; transport = "wg0" }

abbrev entry_to : ℕ → LabelOp → List ℕ → LfibEntry
entry_to l op labels = record {
  in_label = l;
  op = op;
  out_labels = labels;
  next_hop = invalid;
  transport = "wg1";
}

abbrev lfib : Lfib
lfib = record {
  entries =
      (50, entry_to 50 op_pop [])
      ∷ (60, entry_to 60 op_pop [])
      ∷ (100, entry_to 100 op_swap (200 ∷ []))
      ∷ [];
  alloc = record { next = 16 };
}

abbrev wg1 : Transport
wg1 = record { name = "wg1"; mtu = 1420 }

abbrev manager : Manager (Unit {0})
manager = record {
  stack = tt;
  nics = [];
  nic_names = [];
  nic_by_addr = [];
  next_nic_id = 1;
  enable_ipv6 = false;
}

abbrev router : Router (Unit {0})
router = record {
  transports = ("wg1", wg1) ∷ [];
  fib = fib;
  nexthop = resolver;
  netstack = manager;
  lfib = some lfib;
  processor = λ bytes. some bytes;
  is_local = λ a. false;
  nic_for_addr = λ a. ("", false);
}

-- One option word after the header.
abbrev options : List ℕ
options = 7 ∷ 3 ∷ 4 ∷ 0 ∷ []

checksum-refresh_checksum_example :
    (hdr' : List ℕ) × (refresh_checksum (header 63 ++ (options ++ (1 ∷ [])))
      ≡ hdr' ++ (options ++ (1 ∷ [])))
    × (length hdr' ≡ 20)
    × ((checksum (hdr' ++ options) ≡ 0) ↔ (words options % 65535 ≡ 0))
checksum-refresh_checksum_example =
    Verify.checksum-refresh_checksum (header 63) options (1 ∷ []) refl (omega arith) (omega arith)

handle_ip_packet_cases_example :
    Ip.IsMalformed router (ip_packet 64) (handle_ip_packet router (ip_packet 64))
    ⊎ (Ip.IsForUs router (ip_packet 64) (handle_ip_packet router (ip_packet 64))
        ⊎ Ip.IsForwarded router (ip_packet 64) (handle_ip_packet router (ip_packet 64)))
handle_ip_packet_cases_example = Ip.handle_ip_packet_cases router (ip_packet 64) (omega arith)

router-KeepsLength : Ends.KeepsLength router
router-KeepsLength bytes out e = let same : out ≡ bytes = cc in rw same (omega arith)

lfib-HasSwapLabels : Ends.HasSwapLabels router lfib
unfolding lookup_label Dict.lookup
lfib-HasSwapLabels label entry found swaps empty =
    let first = Bool-cases (50 == label) in
    let second = Bool-cases (60 == label) in
    let third = Bool-cases (100 == label) in ground (arith, first, second, third)

router-HasSwapLabels : (l : Lfib) → router.lfib ≡ some l → Ends.HasSwapLabels router l
router-HasSwapLabels l e =
    let same : lfib ≡ l = cc in subst (Ends.HasSwapLabels router) same lfib-HasSwapLabels

handle-Ends_example : Ends.Ends (handle router (ip_packet 64))
handle-Ends_example = Ends.handle-Ends router router-KeepsLength router-HasSwapLabels (ip_packet 64)

handle-push_labels_example :
    handle router (Pops.labelled (ip_packet 64) (push_labels (header 64) (50 ∷ 60 ∷ [])))
    ≡ handle router (Pops.plain (ip_packet 64) (header 64))
unfolding lookup_label Dict.lookup detect_packet_type
handle-push_labels_example =
    Pops.handle-push_labels router lfib refl (λ b. refl) 50 (60 ∷ []) (ip_packet 64) (header 64)
      ((entry_to 50 op_pop [], refl, inl refl), ((entry_to 60 op_pop [], refl, inl refl), tt))
      (refl, tt) refl

handle-push_label_misread_example :
    handle router (Pops.labelled (ip_packet 64) (push_label (push_label (header 64) 0x45000) 50))
    ≡ handle router (Pops.plain (ip_packet 64) (push_label (header 64) 0x45000))
unfolding lookup_label Dict.lookup
handle-push_label_misread_example =
    Pops.handle-push_label_misread router lfib refl (λ b. refl) 50 0x45000 (ip_packet 64)
      (header 64) (entry_to 50 op_pop [], refl, inl refl) refl
