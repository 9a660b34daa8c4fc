-- ===== src/Cmd/Mplstest.antt =====
-- cmd/mplstest/main.go: a router with one MPLS over UDP transport, and the packets it is tried with.
-- The netstack manager, after `AddNIC`, is a parameter.
pub mod Echo
pub mod Runs
pub mod Trials
use gouter.Base.{
  string_eq, nat_eq, ℕ, ◌+◌, ◌*◌, ◌/◌, ◌%◌, ◌^◌, Bool, true, false, List, [], ◌∷◌, ◌++◌, Option,
  none, some, String, ◌==◌, if◌then◌else◌, take, drop, set, u8, shr,
}
use gouter.Netip.{Addr, invalid, v4, v6, Prefix}
use gouter.Transport.{Packet}
use gouter.Checksum.{checksum}
use gouter.Mpls.Label.{push_label, pop_label}
use gouter.Mpls.Lfib.{Lfib, new_lfib, op_pop, op_swap}
use gouter.Mpls.Lfib as LabelTable
use gouter.Mpls.Udp.{AddrPort, UdpTransport, add_peer, mtu, write, Event, read_loop}
use gouter.Netstack.Manager.{Manager, Calls, NicConfig}
use gouter.Router.Fib.{Fib, new_fib, action_local}
use gouter.Router.Fib as Table
use gouter.Router.Nexthop.{NexthopResolver, new_nexthop_resolver}
use gouter.Router.Nexthop as Resolver
use gouter.Router.Header.{refresh_checksum}
use gouter.Router.Packets.{
  Router, Transport, Outcome, dropped, injected, inject_failed, wrote, panicked, out_of_fuel,
  new_router, add_transport, run_transport_reader,
}

-- 127.0.0.1:16636.
abbrev pub mpls_peer : AddrPort
mpls_peer = record { addr = v4 0x7f000001; port = 16636 }

-- 10.200.0.1/32.
abbrev pub local_prefix : Prefix
local_prefix = record { addr = v4 0x0ac80001; bits_plus_one = 33 }

abbrev pub nic_config : NicConfig
nic_config = record { name = "mpls-udp"; address = local_prefix; mtu = 1500 }

-- 127.0.0.1:16635.
abbrev pub mpls_listen : AddrPort
mpls_listen = record { addr = v4 0x7f000001; port = 16635 }

-- Where the host does not listen there, the program ends.
pub mpls_transport : UdpTransport
mpls_transport =
    add_peer (record { name = "mpls-udp"; local_addr = mpls_listen; peers = []; closed = false })
      mpls_peer.addr mpls_peer

pub main_fib : Fib
main_fib = Table.add new_fib (record {
  prefix = local_prefix;
  next_hop = invalid;
  transport = "mpls-udp";
  action = action_local;
  out_labels = [];
})

-- The resolver holds the same table.
pub main_nexthop : NexthopResolver
main_nexthop = Resolver.add_transport (new_nexthop_resolver main_fib) "mpls-udp" (local_prefix ∷ [])

pub main_lfib : Lfib
main_lfib =
    LabelTable.add
      (LabelTable.add new_lfib (record {
        in_label = 100;
        op = op_swap;
        out_labels = 200 ∷ [];
        next_hop = invalid;
        transport = "mpls-udp";
      }))
      (record { in_label = 50; op = op_pop; out_labels = []; next_hop = invalid; transport = "" })

pub main_router : {S : Type 0} → Calls S → Manager S → Router S
main_router calls ns =
    add_transport (new_router calls main_fib main_nexthop ns (some main_lfib))
      (record { name = mpls_transport.name; mtu = mtu })

-- What the reader of the transport gives the router, as the router's loop meets it.
pub arrivals : List Packet → List (Option Packet)
arrivals [] = []
arrivals (pkt ∷ pkts) = some pkt ∷ arrivals pkts

-- The outcomes for what the socket reads.
pub outcomes : {S : Type 0} → Router S → List Event → List Outcome
outcomes r events = run_transport_reader r "mpls-udp" (arrivals (read_loop "mpls-udp" events))

-- The datagrams of an outcome: those that the transport sends for what is written to it.
pub sent_for : (AddrPort → List ℕ → Bool) → Outcome → List (AddrPort × List ℕ)
sent_for accepts (wrote name pkt) =
    if name == "mpls-udp" then (write accepts mpls_transport pkt).0 else []
sent_for accepts dropped = []
sent_for accepts (injected name bytes) = []
sent_for accepts (inject_failed name) = []
sent_for accepts panicked = []
sent_for accepts out_of_fuel = []

pub all_sent : (AddrPort → List ℕ → Bool) → List Outcome → List (AddrPort × List ℕ)
all_sent accepts [] = []
all_sent accepts (o ∷ os) = sent_for accepts o ++ all_sent accepts os

-- From the socket to the socket.
pub through :
    {S : Type 0} → Router S → (AddrPort → List ℕ → Bool) → List Event → List (AddrPort × List ℕ)
through r accepts events = all_sent accepts (outcomes r events)

-- The datagrams of the three tests, around their payloads.
abbrev pub swap_frame : List ℕ → List ℕ
swap_frame payload = push_label payload 100

abbrev pub pop_frame : List ℕ → List ℕ
pop_frame packet = push_label packet 50

abbrev pub double_frame : List ℕ → List ℕ
double_frame payload = push_label (push_label payload 100) 50

-- `==` of the texts with these bytes.
pub same_bytes : List ℕ → List ℕ → Bool
same_bytes [] [] = true
same_bytes (b ∷ bs) (c ∷ cs) = if b == c then same_bytes bs cs else false
same_bytes _ _ = false

-- How a test ends: without a socket, with a datagram that is not sent, with nothing received, or on
-- what its socket receives.
pub data TestResult : Type 0 where
  no_listener no_connection not_sent nothing_received : TestResult
  no_label wrong_label wrong_payload passed : TestResult

pub test_result : List ℕ → List ℕ → TestResult
test_result payload received = elim (pop_label received) [
  | none ↦ no_label
  | some (label, rest) ↦
      if label == 200
      then (if same_bytes rest payload then passed else wrong_payload)
      else wrong_label
]

-- `AsSlice`.
pub as_slice : Addr → List ℕ
as_slice invalid = []
as_slice (v4 a) = u8 (a / 2 ^ 24) ∷ u8 (a / 2 ^ 16) ∷ u8 (a / 2 ^ 8) ∷ u8 a ∷ []
as_slice (v6 a z) =
    u8 (a / 2 ^ 120)
    ∷ u8 (a / 2 ^ 112)
    ∷ u8 (a / 2 ^ 104)
    ∷ u8 (a / 2 ^ 96)
    ∷ u8 (a / 2 ^ 88)
    ∷ u8 (a / 2 ^ 80)
    ∷ u8 (a / 2 ^ 72)
    ∷ u8 (a / 2 ^ 64)
    ∷ u8 (a / 2 ^ 56)
    ∷ u8 (a / 2 ^ 48)
    ∷ u8 (a / 2 ^ 40)
    ∷ u8 (a / 2 ^ 32)
    ∷ u8 (a / 2 ^ 24)
    ∷ u8 (a / 2 ^ 16)
    ∷ u8 (a / 2 ^ 8)
    ∷ u8 a
    ∷ []

-- The header of `buildICMPEcho` before its checksum.
pub echo_header : Addr → Addr → List ℕ
echo_header src dst =
    0x45
    ∷ 0
    ∷ 0
    ∷ 28
    ∷ 0
    ∷ 1
    ∷ 0
    ∷ 0
    ∷ 64
    ∷ 1
    ∷ 0
    ∷ 0
    ∷ (take 4 (as_slice src) ++ take 4 (as_slice dst))

-- `checksum`, a copy of the router's.
abbrev pub copied_checksum : List ℕ → ℕ
copied_checksum = checksum

pub echo_request : List ℕ
echo_request =
    let icmp = 8 ∷ 0 ∷ 0 ∷ 0 ∷ 0 ∷ 1 ∷ 0 ∷ 1 ∷ [] in
    let cs = copied_checksum icmp in set (set icmp 2 (u8 (shr cs 8))) 3 (u8 cs)

-- `buildICMPEcho` on parsed addresses; the checksum of the header is put in as the router does.
pub build_icmp_echo : Addr → Addr → List ℕ
build_icmp_echo src dst = refresh_checksum (echo_header src dst) ++ echo_request
