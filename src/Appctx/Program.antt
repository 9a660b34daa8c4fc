-- ===== src/Appctx/Program.antt =====
-- The program at work: the context of internal/appctx/ac.go with the speaker of
-- internal/bgp/speaker.go, and what its goroutines do, in whatever order. The router, its resolver
-- and the speaker hold pointers to one forwarding table and one label table; here each holds its
-- contents, and a change by the speaker is a change of all.
pub mod Steps
pub mod Safety
pub mod Convergence
pub mod Forwards
pub mod Page
pub mod Labelled
use gouter.Base.{string_eq, ℕ, Bool, List, [], ◌∷◌, ◌++◌, Option, none, some, String}
use gouter.Config.{Config}
use gouter.Netip.{Addr, Prefix}
use gouter.Transport.{Packet}
use gouter.Mpls.Lfib.{Lfib}
use gouter.Netstack.Manager.{Manager, Calls, NicConfig, is_local_address, nic_name_for_address}
use gouter.Netstack.Manager as Netstack
use gouter.Router.Fib.{Fib}
use gouter.Router.Nexthop.{NexthopResolver}
use gouter.Router.Nexthop as Resolver
use gouter.Router.Packets.{Router, Transport, Outcome, handle}
use gouter.Router.Packets as Packets
use gouter.Bgp.Paths.{Speaker, BestPath, handle_best_path}
use gouter.Appctx.{AppContext, new_app_context}

-- `NewSpeaker`, with the tables that `GetFIB` and `GetLFIB` return.
abbrev pub new_speaker :
    {S : Type 0} → AppContext S → String → Option (Addr → String × Bool) → Speaker
new_speaker ac router_id resolve_nh = record {
  router_id = router_id;
  resolve_nh = resolve_nh;
  fib = ac.fib;
  lfib = ac.lfib;
  route_count = 0;
}

pub record Program (S : Type 0) : Type 0 where
  pub router : Router S
  pub speaker : Speaker

-- The router at tables that have these contents.
abbrev pub with_tables : {S : Type 0} → Router S → Fib → Lfib → Router S
with_tables r fib lfib = record r {
  fib = fib;
  nexthop = record r.nexthop { fib = fib };
  lfib = some lfib;
}

-- The router above the netstack in this state: its closures read the manager.
abbrev pub with_netstack : {S : Type 0} → Calls S → Router S → Manager S → Router S
with_netstack calls r ns = record r {
  netstack = ns;
  is_local = is_local_address calls ns;
  nic_for_addr = nic_name_for_address ns;
}

abbrev pub start :
    {S : Type 0} → Calls S → S → Config → String → Option (Addr → String × Bool) → Program S
start calls stack cfg router_id resolve_nh =
    let ac = new_app_context calls stack cfg in
    record { router = ac.router; speaker = new_speaker ac router_id resolve_nh }

-- What a goroutine does: the callback of the speaker, the changes of the transports, of their
-- prefixes and of the NICs, and the reader of a transport with a packet.
pub data Event : Type 0 where
  best_paths : List BestPath → Event
  adds_transport : Transport → Event
  removes_transport : String → Event
  adds_prefixes : String → List Prefix → Event
  removes_prefixes : String → Event
  adds_nic : NicConfig → Event
  removes_nic : String → Event
  receives : Packet → Event

module _ {S : Type 0} (calls : Calls S) (parse_addr : String → Option Addr) where
  abbrev pub with_speaker : Program S → Option Speaker → Option (Program S × List Outcome)
  with_speaker p none = none
  with_speaker p (some s) =
      some (record { router = with_tables p.router s.fib s.lfib; speaker = s }, [])

  -- The program after an event, with what became of its packet; `none` is a panic of the speaker.
  unfoldable pub step : Program S → Event → Option (Program S × List Outcome)
  step p (best_paths ps) = with_speaker p (handle_best_path parse_addr p.speaker ps)
  step p (adds_transport t) = some (record p { router = Packets.add_transport p.router t }, [])
  step p (removes_transport name) =
      some (record p { router = Packets.remove_transport p.router name }, [])
  step p (adds_prefixes name prefixes) =
      let nexthop = Resolver.add_transport p.router.nexthop name prefixes in
      some (record p { router = record p.router { nexthop = nexthop } }, [])
  step p (removes_prefixes name) =
      let nexthop = Resolver.remove_transport p.router.nexthop name in
      some (record p { router = record p.router { nexthop = nexthop } }, [])
  step p (adds_nic cfg) =
      let ns = (Netstack.add_nic calls p.router.netstack cfg).0 in
      some (record p { router = with_netstack calls p.router ns }, [])
  step p (removes_nic name) =
      let ns = Netstack.remove_nic calls p.router.netstack name in
      some (record p { router = with_netstack calls p.router ns }, [])
  step p (receives pkt) = some (p, handle p.router pkt ∷ [])

  abbrev and_then :
      List Outcome → Option (Program S × List Outcome) → Option (Program S × List Outcome)
  and_then outs none = none
  and_then outs (some (p, more)) = some (p, outs ++ more)

  unfoldable pub run : Program S → List Event → Option (Program S × List Outcome)
  run p [] = some (p, [])
  run p (e ∷ es) = elim (step p e) [ none ↦ none | some (p', outs) ↦ and_then outs (run p' es) ]
