-- ===== src/Cmd/Mplstest/Runs.antt =====
-- The runs of the program, from the socket through the router to the socket.
use gouter.Base.{
  string_eq, nat_eq, ℕ, ◌≤◌, ◌≡◌, refl, ap, ◌∙◌, Bool, true, List, [], Option, none, some, ◌∷◌,
  String, if◌then◌else◌, arith, length, inl, ◌<◌, ◌^◌,
}
use gouter.Base.Dict
use gouter.Netip.{invalid, v4}
use gouter.Transport.{Packet, packet_mpls}
use gouter.Mpls.Label.{push_label, has_label}
use gouter.Mpls.Label.Codec.{
  parse_label-push_label, pop_label-push_label, length-push_label, has_label-push_label,
  drop-push_label,
}
use gouter.Mpls.Lfib as LabelTable
use gouter.Mpls.Lfib.{new_lfib, lookup_label, op_pop, op_swap}
use gouter.Mpls.Udp.{AddrPort, mtu, add_peer, write, send_raw, datagram, read_loop}
use gouter.Netstack.Manager.{Manager, Calls, is_local_address, nic_name_for_address}
use gouter.Netstack.Manager.Names.{IsConsistent}
use gouter.Router.Packets.Local
use gouter.Cmd.Mplstest.Echo.{build_icmp_echo-read_header, detect-build_icmp_echo}
use gouter.Router.Header.{detect_packet_type}
use gouter.Router.Packets.{
  Router, add_transport, new_router, wrote, injected, dropped, handle, run_transport_reader,
  read_packets, null_process,
}
use gouter.Router.Packets.Labels.{detect-push_label}
use gouter.Router.Packets.Pops.{handle-swap, handle_popped, labelled, plain}
use gouter.Cmd.Mplstest.{
  mpls_peer, mpls_transport, main_lfib, main_router, arrivals, outcomes, sent_for, all_sent,
  through, build_icmp_echo, swap_frame, pop_frame, double_frame, same_bytes, test_result, passed,
  TestResult, nothing_received,
}
use gouter.Cmd.Mplstest.Trials.{
  Net, exchange, run_tests, until_failure, test_mpls_swap, test_mpls_pop, test_mpls_double_label,
  swap_payload, double_payload,
}

module _ {S : Type 0} (calls : Calls S) (ns : Manager S) where
  abbrev r : Router S
  r = main_router calls ns

  -- What comes of one datagram that can hold a label.
  outcomes-datagram :
      (bytes : List ℕ)
      → 4 ≤ length bytes
      → outcomes r (datagram bytes ∷ [])
        ≡ handle r (record { kind = packet_mpls; bytes = bytes; transport = "mpls-udp" }) ∷ []
  unfolding outcomes arrivals read_loop run_transport_reader read_packets main_router add_transport
      new_router mpls_transport add_peer Dict.insert Dict.lookup
  outcomes-datagram bytes l = ground arith

  -- What goes out is one datagram to the peer.
  all_sent-wrote :
      (accepts : AddrPort → List ℕ → Bool) (pkt : Packet)
      → pkt.kind ≡ packet_mpls
      → has_label pkt.bytes ≡ true
      → accepts mpls_peer pkt.bytes ≡ true
      → all_sent accepts (wrote "mpls-udp" pkt ∷ []) ≡ (mpls_peer, pkt.bytes) ∷ []
  unfolding all_sent sent_for write send_raw mpls_transport add_peer Dict.insert
  all_sent-wrote accepts pkt mpls labelled taken = rw (mpls, labelled, taken, write, send_raw) refl

  abbrev arriving : Packet
  arriving = record { kind = packet_mpls; bytes = []; transport = "mpls-udp" }

  handle_100 :
      (payload : List ℕ)
      → handle r (labelled arriving (push_label payload 100))
        ≡ wrote "mpls-udp" (labelled arriving (push_label payload 200))
  unfolding main_router add_transport new_router main_lfib LabelTable.add lookup_label Dict.insert
      new_lfib Dict.lookup mpls_transport add_peer null_process
  handle_100 payload =
      let (out, _) =
        handle-swap r main_lfib refl (λ b. refl) (push_label payload 100) _ arriving
          (record {
            in_label = 100;
            op = op_swap;
            out_labels = 200 ∷ [];
            next_hop = invalid;
            transport = "mpls-udp";
          })
          200 [] (parse_label-push_label payload 100) refl refl refl
          (record { name = "mpls-udp"; mtu = mtu }) refl in
      out
      ∙ ap (λ b. wrote "mpls-udp" (labelled arriving (push_label b 200)))
          (drop-push_label payload 100)

  handle_50 :
      (payload : List ℕ)
      → handle r (labelled arriving (push_label payload 50))
        ≡ handle r (record arriving { kind = detect_packet_type payload; bytes = payload })
  unfolding main_router add_transport new_router main_lfib LabelTable.add lookup_label Dict.insert
      Dict.lookup null_process new_lfib
  handle_50 payload =
      handle_popped r main_lfib refl (λ b. refl) 50 arriving payload
        (
          record {
            in_label = 50;
            op = op_pop;
            out_labels = [];
            next_hop = invalid;
            transport = "";
          },
          refl,
          inl refl,
        )

  same_bytes_self : (bs : List ℕ) → same_bytes bs bs ≡ true
  unfolding same_bytes
  same_bytes_self [] = refl
  same_bytes_self (b ∷ bs) = ground (arith, same_bytes_self bs)

  test_result-push_label :
      (payload : List ℕ) → test_result payload (push_label payload 200) ≡ passed
  unfolding test_result
  test_result-push_label payload =
      rw (pop_label-push_label payload 200, test_result) (ground (arith, same_bytes_self payload))

  -- The network of the tests where their sockets open: what comes back for a frame is the first
  -- datagram that the router sends for it.
  abbrev pub first_sent : List (AddrPort × List ℕ) → Option (List ℕ)
  first_sent [] = none
  first_sent ((_, bytes) ∷ sent) = some bytes

  abbrev pub routed : (AddrPort → List ℕ → Bool) → Net
  routed accepts = record {
    listens = true;
    dials = true;
    sends = λ frame. true;
    receives = λ frame. first_sent (through r accepts (datagram frame ∷ []));
  }

  -- The two runs that the program checks, whatever the payload: a datagram under label 100 comes out
  -- under label 200, and one under 50 and 100 comes out under 200 alone, as long as the peer's socket
  -- takes it; on a network where that is what comes back both tests pass, with every payload.
  pub through-push_label :
      (accepts : AddrPort → List ℕ → Bool) (payload : List ℕ)
      → accepts mpls_peer (push_label payload 200) ≡ true
      → (through r accepts (datagram (swap_frame payload) ∷ [])
          ≡ (mpls_peer, push_label payload 200) ∷ [])
        × (through r accepts (datagram (double_frame payload) ∷ [])
            ≡ (mpls_peer, push_label payload 200) ∷ [])
        × (exchange (routed accepts) (swap_frame payload) payload ≡ passed)
        × (exchange (routed accepts) (double_frame payload) payload ≡ passed)
  unfolding through exchange
  through-push_label accepts payload taken =
      let out =
        all_sent-wrote accepts (labelled arriving (push_label payload 200)) refl
          (has_label-push_label payload 200) taken in
      let inner = push_label payload 100 in
      let mpls : detect_packet_type inner ≡ packet_mpls = detect-push_label payload 100 in
      let swapped : through r accepts (datagram (swap_frame payload) ∷ [])
          ≡ (mpls_peer, push_label payload 200) ∷ [] =
        ap (all_sent accepts) (
          outcomes-datagram (push_label payload 100) (omega (arith, length-push_label payload 100))
          ∙ ap (λ o. o ∷ []) (handle_100 payload))
        ∙ out in
      let popped : through r accepts (datagram (double_frame payload) ∷ [])
          ≡ (mpls_peer, push_label payload 200) ∷ [] =
        ap (all_sent accepts) (
          outcomes-datagram (push_label inner 50) (omega (arith, length-push_label inner 50))
          ∙ ap (λ o. o ∷ [])
              (handle_50 inner
                ∙ ap (λ k. handle r (record arriving { kind = k; bytes = inner })) mpls
                ∙ handle_100 payload))
        ∙ out in
      (swapped, popped, exchanged _ swapped, exchanged _ popped)
    where
      exchanged :
          (frame : List ℕ)
          → through r accepts (datagram frame ∷ []) ≡ (mpls_peer, push_label payload 200) ∷ []
          → exchange (routed accepts) frame payload ≡ passed
      exchanged frame e =
          ap
            (λ sent. elim (first_sent sent) as (λ _. TestResult) [
              | none ↦ nothing_received
              | some received ↦ test_result payload received
            ])
            e
          ∙ test_result-push_label payload

  -- All three tests pass, in their order, where the peer's socket takes what comes out.
  run_tests-passed :
      (accepts : AddrPort → List ℕ → Bool)
      → ((bytes : List ℕ) → accepts mpls_peer bytes ≡ true)
      → run_tests (routed accepts) ≡ passed ∷ passed ∷ passed ∷ []
  unfolding run_tests until_failure test_mpls_swap test_mpls_pop test_mpls_double_label
  run_tests-passed accepts takes =
      let (_, _, swap, _) = through-push_label accepts swap_payload (takes _) in
      let (_, _, _, double) = through-push_label accepts double_payload (takes _) in
      rw (swap, double) refl

  -- The third run, which the program does not look at further: where the stack has the destination,
  -- and a NIC that is there has its address, an echo request under label 50, from any IPv4 address, is
  -- given whole to that NIC.
  outcomes-build_icmp_echo :
      (a b : ℕ) (name : String)
      → b < 2 ^ 32
      → is_local_address calls ns (v4 b) ≡ true
      → IsConsistent ns
      → nic_name_for_address ns (v4 b) ≡ (name, true)
      → outcomes r (datagram (pop_frame (build_icmp_echo (v4 a) (v4 b))) ∷ [])
        ≡ injected name (build_icmp_echo (v4 a) (v4 b)) ∷ []
  unfolding main_router add_transport new_router null_process
  outcomes-build_icmp_echo a b name small ours tidy nic =
      let echo = build_icmp_echo (v4 a) (v4 b) in
      let (len, _, _, read) = build_icmp_echo-read_header a b small in
      let pkt = plain arriving echo in
      let chosen = Local.deliver_local-injected r pkt (v4 b) tidy refl in
      outcomes-datagram (push_label echo 50) (omega (arith, length-push_label echo 50))
      ∙ ap (λ o. o ∷ [])
          (handle_50 echo
            ∙ ap (λ k. handle r (record arriving { kind = k; bytes = echo }))
                (detect-build_icmp_echo a b)
            ∙ Local.handle_local r pkt 4 (v4 b) 8 refl refl (omega (arith, len)) read ours
            ∙ chosen
            ∙ ap (λ n. if n.1 then injected n.0 echo else dropped) nic)
