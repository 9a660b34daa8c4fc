-- ===== src/Tests/Work.antt =====
-- Runs of the whole program, and what its router makes of packets, at small inputs.
use gouter.Base.{
  inl, string_eq, nat_eq, ℕ, ◌≡◌, refl, true, false, List, [], ◌∷◌, Option, none, some, String,
  arith, All, Bool, if◌then◌else◌, ◌==◌,
}
use gouter.Netip.{Addr, v4, Prefix, prefix_eq, addr_eq}
use gouter.Mpls.Lfib.{new_lfib}
use gouter.Router.Fib.{
  FibEntry, Fib, action_forward, new_fib, has_exact, add, sort, sort_from, place, pass,
}
use gouter.Router.Packets.{Outcome, new_router, handle}
use gouter.Router.Packets.Ends.{Ends}
use gouter.Bgp.Paths.{
  BestPath, ipv4_uc, ip_prefix, next_hop, handle_best_path, handle_path, handle_unicast_path,
  extract_unicast_info, valid_next_hop, extract_next_hop, resolve_transport,
}
use gouter.Bgp.Paths.Changes.{left_at, after, change_of, unicast_change, says}
use gouter.Appctx.{AppContext, new_app_context}
use gouter.Appctx.Program.Page
use gouter.Appctx.Program.Labelled
use gouter.Appctx.Program.Labelled.{unwrapped}
use gouter.Router.Packets.Pops.{labelled}
use gouter.Mpls.Label.{pop_label, parse_label}
use gouter.Mpls.Lfib as LabelTable
use gouter.Bgp.Paths.Bindings.{bound_at}
use gouter.Bgp.Paths.{
  ipv4_mpls, labelled as labelled_nlri, pop_entry, handle_labelled_path, extract_labelled_info,
  learn_label,
}
use gouter.Mpls.Lfib.{lookup_label}
use gouter.Http.{Line, fib_routes, HostInfo, routes_page}
use gouter.Http.Routes.{shown_at, entry_shown}
use gouter.Router.Fib.{list}
use gouter.Appctx.Program.{
  Program, start, with_tables, Event, best_paths, adds_transport, receives, step, run,
}
use gouter.Appctx.Program.Safety
use gouter.Appctx.Program.Steps.{paths_of}
use gouter.Appctx.Program.Convergence
use gouter.Appctx.Program.Convergence.{left_by}
use gouter.Appctx.Program.Forwards
use gouter.Router.Packets.Routed.{IsRouted}
use gouter.Router.Fib.Table.{IsValid}
use gouter.Bgp.Paths.Labels.{OnlyPops}
use gouter.Router.Fib.Chosen.{IsChosen}
use gouter.Router.Packets.Sent.{IsSentOn}
use gouter.Transport.{Packet, packet_ip}
use gouter.Netip.{contains}
use gouter.Netstack.Manager.{is_local_address, local_addresses, to_prefixes, in_any}
use gouter.Tests.Devices.{config}
use gouter.Tests.Tables.{
  level, turned, level-IsValid, turned-IsValid, level-turned, level-IsCanonical, wide, narrow, host,
}
use gouter.Tests.Ping.{calls, echo}

-- The router's own address.
abbrev self : Addr
self = v4 0x0a000001

abbrev parse_addr : String → Option Addr
parse_addr s = if s == "10.0.0.1" then some self else none

abbrev path : Prefix → Bool → BestPath
path p w = record {
  family = ipv4_uc;
  nlri = ip_prefix p;
  attrs = next_hop host ∷ [];
  withdrawal = w;
}

abbrev one : List Event
one = best_paths (path narrow false ∷ []) ∷ receives echo ∷ []

-- A route that comes and goes, and a transport between.
abbrev two : List Event
two =
    best_paths (path wide false ∷ [])
    ∷ adds_transport (record { name = "wg0"; mtu = 1420 })
    ∷ best_paths (path wide true ∷ path narrow false ∷ [])
    ∷ []

abbrev begun : Program (Unit {0})
begun = start calls tt config "10.0.0.1" none

run-start_example :
    (p : Program (Unit {0})) × (outs : List Outcome) × (run calls parse_addr begun two
      ≡ some (p, outs))
    × All Ends outs
    × IsValid p.router.fib
    × OnlyPops p.speaker.lfib
    × ((q : Prefix)
        → has_exact p.router.fib q
          ≡ left_at self (resolve_transport begun.speaker) q none (paths_of two))
    × ((k : ℕ) → lookup_label p.speaker.lfib k ≡ bound_at self k none (paths_of two))
run-start_example = Safety.run-start calls tt config "10.0.0.1" none parse_addr self two refl

abbrev learnt : Fib
learnt = record {
  routes =
      (record {
        prefix = narrow;
        next_hop = host;
        transport = "";
        action = action_forward;
        out_labels = [];
      })
      ∷ [];
}

abbrev after_one : Program (Unit {0})
after_one = record {
  router = with_tables begun.router learnt new_lfib;
  speaker = record begun.speaker { fib = learnt; route_count = 1 };
}

one-run : run calls parse_addr begun one ≡ some (after_one, handle after_one.router echo ∷ [])
unfolding run step handle_best_path handle_path handle_unicast_path extract_unicast_info
    valid_next_hop extract_next_hop resolve_transport add sort sort_from place pass new_app_context
    new_lfib new_fib
one-run = refl

handle-with_tables_example :
    handle (with_tables begun.router level new_lfib) echo
    ≡ handle (with_tables begun.router turned new_lfib) echo
handle-with_tables_example =
    Convergence.handle-with_tables begun.router level turned new_lfib new_lfib echo level-IsValid
      turned-IsValid level-IsCanonical level-turned (λ k. refl)

-- An IPv4 packet for a host of the route.
abbrev passing : Packet
passing = record {
  kind = packet_ip;
  bytes = 0x45 ∷ 0 ∷ 0 ∷ 20 ∷ 0 ∷ 1 ∷ 0 ∷ 0 ∷ 64 ∷ 1 ∷ 0 ∷ 0 ∷ 10 ∷ 0 ∷ 0 ∷ 1 ∷ 10 ∷ 1 ∷ 2 ∷ 3 ∷ [];
  transport = "wg0";
}

abbrev found : FibEntry
found = record {
  prefix = narrow;
  next_hop = host;
  transport = "";
  action = action_forward;
  out_labels = [];
}

found-IsChosen :
    IsChosen (left_by calls tt config "10.0.0.1" none parse_addr self one) host (some found)
unfolding IsChosen left_at paths_of after change_of unicast_change says extract_next_hop contains
    resolve_transport
found-IsChosen = (refl, refl, λ q e l c n. ground (arith, prefix_eq.beq_iff narrow q))

handle-run_example :
    (sent : Packet) × IsSentOn passing 4 8 sent
    × IsRouted after_one.router sent (some found) (handle after_one.router passing)
unfolding is_local_address local_addresses to_prefixes in_any contains new_app_context new_router
handle-run_example =
    Forwards.handle-run calls tt config "10.0.0.1" none parse_addr self one after_one
      (handle after_one.router echo ∷ []) passing 4 8 host (some found) refl one-run refl
      (omega arith) (inl (refl, refl, refl, omega arith, refl)) refl (λ e. omega (arith, e))
      found-IsChosen

abbrev info : HostInfo
info = record { hostname = some "gouter"; goos = "linux"; goarch = "amd64" }

-- The context as the first run leaves it.
abbrev context : AppContext (Unit {0})
context = record (new_app_context calls tt config) { fib = learnt }

routes_page-run_example :
    (lines : List Line) × (routes_page info context ≡ fib_routes 1 ∷ lines)
    × ((q : Prefix)
        → shown_at q lines
          ≡ entry_shown (left_by calls tt config "10.0.0.1" none parse_addr self one q))
unfolding list
routes_page-run_example =
    Page.routes_page-run calls tt config "10.0.0.1" none parse_addr self one after_one
      (handle after_one.router echo ∷ []) info context refl one-run refl

-- The router announces a label of its own.
abbrev own : List Event
own =
    best_paths (
      (record {
        family = ipv4_mpls;
        nlri = labelled_nlri narrow (300 ∷ []);
        attrs = next_hop self ∷ [];
        withdrawal = false;
      })
      ∷ [])
    ∷ []

abbrev after_own : Program (Unit {0})
after_own =
    let lfib = LabelTable.add new_lfib (pop_entry 300 self) in
    record {
      router = with_tables begun.router new_fib lfib;
      speaker = record begun.speaker { lfib = lfib };
    }

own-run : run calls parse_addr begun own ≡ some (after_own, [])
unfolding run step handle_best_path handle_path handle_labelled_path extract_labelled_info
    learn_label valid_next_hop extract_next_hop new_app_context new_lfib new_fib
own-run = refl

-- The packet under label 300.
abbrev wrapped : List ℕ
wrapped = 0x00 ∷ 0x12 ∷ 0xc1 ∷ 0x40 ∷ echo.bytes

wrapped-label : pop_label wrapped ≡ some (300, echo.bytes)
unfolding pop_label parse_label
wrapped-label = refl

handle-bound_at_example :
    handle after_own.router (labelled echo wrapped)
    ≡ unwrapped after_own.router echo echo.bytes (bound_at self 300 none (paths_of own))
handle-bound_at_example =
    Labelled.handle-bound_at calls tt config "10.0.0.1" none parse_addr self own after_own [] echo
      wrapped 300 echo.bytes refl own-run wrapped-label
