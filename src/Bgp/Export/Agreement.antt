-- ===== src/Bgp/Export/Agreement.antt =====
-- The exports end alike with two servers that answer their paths alike.
use gouter.Base.{ℕ, ◌≡◌, Bool, Option, String}
use gouter.Netip.{Addr, Prefix}
use gouter.Config.{RouteConfig}
use gouter.Bgp.Paths.{BestPath, Nlri}
use gouter.Bgp.Server.{Call, add_path, add_ls_path, LsNlri}
use gouter.Bgp.Server.Actions.{
  Agree, Agree-bind, Agree-then, Agree-or_fail, Agree-or_panic, Agree-if, Agree-fail, Agree-call,
}
use gouter.Bgp.Export.{add_exported, add_local_route, LsLink, add_ls_path_of, add_ls_routes}

module _ (parse_addr : String → Option Addr) (parse_prefix : String → Option Prefix)
    (nlri_made : Nlri → Bool) (next_hop_made : Addr → Bool) (accepts accepts' : Call → Bool) where
  pub add_local_route-Agree :
      ((p : BestPath) → accepts (add_path p) ≡ accepts' (add_path p))
      → (r : RouteConfig)
      → Agree
          (add_local_route parse_addr parse_prefix nlri_made next_hop_made accepts r)
          (add_local_route parse_addr parse_prefix nlri_made next_hop_made accepts' r)
  unfolding add_local_route add_exported
  add_local_route-Agree same r =
      Agree-bind _ _ _ _ (Agree-or_fail (parse_prefix r.prefix)) (λ prefix.
        Agree-bind _ _ _ _ (Agree-or_fail (parse_addr r.next_hop)) (λ nh.
          Agree-if _ _ _ _ _
            (Agree-if _ _ _ _ _ (Agree-call accepts accepts' _ (same _)) Agree-fail) Agree-fail))

  add_ls_path_of-Agree :
      ((n : LsNlri) (a : Addr) → accepts (add_ls_path n a) ≡ accepts' (add_ls_path n a))
      → (id : String) (n : LsNlri)
      → Agree
          (add_ls_path_of parse_addr parse_prefix nlri_made next_hop_made accepts id n)
          (add_ls_path_of parse_addr parse_prefix nlri_made next_hop_made accepts' id n)
  unfolding add_ls_path_of
  add_ls_path_of-Agree same id n =
      Agree-bind _ _ _ _ (Agree-or_panic (parse_addr id))
        (λ nh. Agree-call accepts accepts' _ (same n nh))

  pub add_ls_routes-Agree :
      ((n : LsNlri) (a : Addr) → accepts (add_ls_path n a) ≡ accepts' (add_ls_path n a))
      → (asn : ℕ) (id : String) (l : LsLink)
      → Agree
          (add_ls_routes parse_addr parse_prefix nlri_made next_hop_made accepts asn id l)
          (add_ls_routes parse_addr parse_prefix nlri_made next_hop_made accepts' asn id l)
  unfolding add_ls_routes
  add_ls_routes-Agree same asn id l = Agree-bind _ _ _ _ (Agree-or_panic _) (λ n.
      Agree-then _ _ _ _ (add_ls_path_of-Agree same id _)
        (Agree-bind _ _ _ _ (Agree-or_panic _) (λ m. add_ls_path_of-Agree same id _)))
