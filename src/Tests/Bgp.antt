-- ===== src/Tests/Bgp.antt =====
-- BGP paths and families at small inputs.
use gouter.Base.{string_eq, ◌≡◌, refl, Bool, true, false, List, [], ◌∷◌, Option, none, some, String}
use gouter.Netip.{Addr, v4, Prefix}
use gouter.Router.Fib.{has_exact}
use gouter.Router.Fib.Table.{IsValid}
use gouter.Bgp.Paths.{
  Family, ipv4_uc, ipv4_mpls, Nlri, ip_prefix, labelled, next_hop, BestPath, Speaker,
  resolve_transport, handle_best_path,
}
use gouter.Bgp.Paths.Changes.{left_at}
use gouter.Bgp.Paths.Effects
use gouter.Tests.Tables.{fib, fib-IsValid, wide, narrow, host}

abbrev speaker : Speaker
speaker = record {
  router_id = "10.0.0.1";
  resolve_nh = none;
  fib = fib;
  lfib = record { entries = []; alloc = record { next = 16 } };
  route_count = 0;
}

-- The address of the router itself.
abbrev parse_addr : String → Option Addr
parse_addr s = some (v4 0x0a000001)

abbrev path : Family → Nlri → Bool → BestPath
path f n w = record { family = f; nlri = n; attrs = next_hop host ∷ []; withdrawal = w }

abbrev updates : List BestPath
updates =
    path ipv4_uc (ip_prefix wide) true ∷ path ipv4_mpls (labelled narrow (100 ∷ [])) false ∷ []

handle_best_path-left_at_example :
    (s' : Speaker) × (handle_best_path parse_addr speaker updates ≡ some s')
    × IsValid s'.fib
    × ((q : Prefix)
        → has_exact s'.fib q
          ≡ left_at (v4 0x0a000001) (resolve_transport speaker) q (has_exact fib q) updates)
handle_best_path-left_at_example =
    Effects.handle_best_path-left_at parse_addr (v4 0x0a000001) speaker updates
      (resolve_transport speaker) refl fib-IsValid refl
