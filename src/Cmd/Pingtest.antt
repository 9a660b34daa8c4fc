-- ===== src/Cmd/Pingtest.antt =====
-- cmd/pingtest/main.go: a router with one WireGuard transport and one NIC, and no label table. The
-- netstack manager, after `AddNIC`, is a parameter.
pub mod Main
pub mod Echoes
pub mod Outbound
use gouter.Base.{
  string_eq, ℕ, Bool, true, false, List, [], ◌∷◌, ◌++◌, Option, none, some, String, if◌then◌else◌,
}
use gouter.Netip.{Prefix}
use gouter.Transport.{Packet}
use gouter.Netstack.Manager.{Manager, Calls, NicConfig}
use gouter.Router.Fib.{new_fib}
use gouter.Router.Nexthop.{NexthopResolver, new_nexthop_resolver}
use gouter.Router.Nexthop as Resolver
use gouter.Router.Packets.{Router, new_router, add_transport}
use gouter.Wg.Transport.{
  WgTransport, new_transport, write_out, Sent, sent, too_many_segments, waits_for_room,
}

abbrev pub ping_config : Prefix → NicConfig
ping_config prefix = record { name = "wg-gouter"; address = prefix; mtu = 1420 }

pub ping_transport : WgTransport
ping_transport = new_transport "wg-gouter" 1420

pub ping_router : {S : Type 0} → Calls S → Manager S → Prefix → Router S
ping_router calls ns prefix =
    let nexthop = Resolver.add_transport (new_nexthop_resolver new_fib) "wg-gouter" (prefix ∷ []) in
    add_transport (new_router calls new_fib nexthop ns none)
      (record { name = ping_transport.name; mtu = ping_transport.mtu })

-- The loop of `handleOutbound` over what comes from the NIC, with the runtime's pick at each `Write`.
-- An error of `Write` is only logged; where a write waits for room, the loop waits with it, and what
-- it has not taken is returned.
pub outbound_loop : WgTransport → List (Bool × Packet) → WgTransport × List (Bool × Packet)
outbound_loop t [] = (t, [])
outbound_loop t ((picks, pkt) ∷ rest) =
    let (t', ending) = write_out t picks pkt in
    let later = outbound_loop t' rest in
    elim ending [
      | sent ↦ later
      | too_many_segments ↦ later
      | waits_for_room ↦ (t, (picks, pkt) ∷ rest)
    ]
