-- ===== src/Cmd/Mplstest/Trials.antt =====
-- cmd/mplstest/main.go: the three tests and their order. A failure ends the process (`log.Fatalf`).
use gouter.Base.{ℕ, ◌≡◌, refl, String, ◌++◌, Bool, List, [], ◌∷◌, Option, none, some, if◌then◌else◌}
use gouter.Transport.{Packet}
use gouter.Netip.{v4}
use gouter.Mpls.Udp.{AddrPort, write}
use gouter.Netstack.Sockets.{out_packets}
use gouter.Cmd.Mplstest.{
  mpls_transport, pop_frame, build_icmp_echo, TestResult, no_listener, no_connection, not_sent,
  nothing_received, passed, test_result, swap_frame, double_frame,
}

-- What a test meets: whether its two sockets open, whether its datagram is sent, and what comes back
-- for it within two seconds.
pub record Net : Type 0 where
  pub listens : Bool
  pub dials : Bool
  pub sends : List ℕ → Bool
  pub receives : List ℕ → Option (List ℕ)

-- The steps of the first test and the third, with a frame and the payload that is to come back.
unfoldable pub exchange : Net → List ℕ → List ℕ → TestResult
exchange net frame payload =
    if net.listens
    then (if net.dials
        then (if net.sends frame
            then (elim (net.receives frame) [
              | none ↦ nothing_received
              | some received ↦ test_result payload received
            ])
            else not_sent)
        else no_connection)
    else no_listener

-- SWAP-TEST-OK.
abbrev pub swap_payload : List ℕ
swap_payload = 83 ∷ 87 ∷ 65 ∷ 80 ∷ 45 ∷ 84 ∷ 69 ∷ 83 ∷ 84 ∷ 45 ∷ 79 ∷ 75 ∷ []

-- DOUBLE-TEST-OK.
abbrev pub double_payload : List ℕ
double_payload = 68 ∷ 79 ∷ 85 ∷ 66 ∷ 76 ∷ 69 ∷ 45 ∷ 84 ∷ 69 ∷ 83 ∷ 84 ∷ 45 ∷ 79 ∷ 75 ∷ []

unfoldable pub test_mpls_swap : Net → TestResult
test_mpls_swap net = exchange net (swap_frame swap_payload) swap_payload

-- Nothing is received for the frame, an echo request from 10.200.0.2 to 10.200.0.1 under label 50.
unfoldable pub test_mpls_pop : Net → TestResult
test_mpls_pop net =
    let frame = pop_frame (build_icmp_echo (v4 0x0ac80002) (v4 0x0ac80001)) in
    if net.dials then (if net.sends frame then passed else not_sent) else no_connection

unfoldable pub test_mpls_double_label : Net → TestResult
test_mpls_double_label net = exchange net (double_frame double_payload) double_payload

-- The results that are reached: those up to the first failure.
unfoldable pub until_failure : List TestResult → List TestResult
until_failure [] = []
until_failure (passed ∷ rs) = passed ∷ until_failure rs
until_failure (r ∷ rs) = r ∷ []

unfoldable pub run_tests : Net → List TestResult
run_tests net =
    until_failure (test_mpls_swap net ∷ test_mpls_pop net ∷ test_mpls_double_label net ∷ [])

-- The loop of `handleOutbound` over what comes from the NIC: the datagrams that are sent. An error of
-- `Write` is dropped.
unfoldable pub outbound_sent : (AddrPort → List ℕ → Bool) → List Packet → List (AddrPort × List ℕ)
outbound_sent accepts [] = []
outbound_sent accepts (pkt ∷ pkts) =
    (write accepts mpls_transport pkt).0 ++ outbound_sent accepts pkts

-- Nothing that the stack sends leaves by the transport, which takes labelled packets only: so no
-- answer to the second test comes back, with the table of routes having no part in it.
outbound_sent-out_packets :
    (accepts : AddrPort → List ℕ → Bool) (name : String) (read : List (List (List ℕ)))
    → outbound_sent accepts (out_packets name read) ≡ []
unfolding outbound_sent out_packets write
outbound_sent-out_packets accepts name [] = refl
outbound_sent-out_packets accepts name (slices ∷ rest) = outbound_sent-out_packets accepts name rest
