-- ===== src/Bgp/Filter.antt =====
-- internal/bgp/filter.go: the import filter.
pub mod Fails
use gouter.Base.{ℕ, Bool, true, false, List, [], ◌∷◌, Option, none, some, String, if◌then◌else◌}
use gouter.Netip.{Addr, Prefix, is_6}
use gouter.Netstack.Manager.{prefix_len}
use gouter.Bgp.Server.{
  PrefixEntry, RouteAction, accept, reject, Statement, imports, Call, add_defined_set, add_policy,
  add_policy_assignment, Action, pure, ◌>>=◌, ◌>>◌, call,
}

-- `netip.ParsePrefix` is a parameter.
module _ (parse_prefix : String → Option Prefix) where
  -- The entry of a prefix: itself and every longer one. What does not parse goes in as it is.
  pub entry_of : String → PrefixEntry
  entry_of p = elim (parse_prefix p) [
    | none ↦ record { ip_prefix = p; mask_length_min = 0; mask_length_max = 0 }
    | some pfx ↦ record {
      ip_prefix = p;
      mask_length_min = prefix_len pfx;
      mask_length_max = if is_6 pfx.addr then 128 else 32;
    }
  ]

  -- The loop of `addPrefixSet`.
  pub entries_of : List String → List PrefixEntry
  entries_of [] = []
  entries_of (p ∷ ps) = entry_of p ∷ entries_of ps

  module _ (accepts : Call → Bool) where
    pub add_prefix_set : String → List String → Action (Unit {0})
    add_prefix_set name prefixes = call accepts (add_defined_set name (entries_of prefixes))

    pub import_statements : List Statement
    import_statements =
        (record {
          name = "accept-allowed";
          prefix_set = some "import-allow";
          route_action = some accept;
          next_hop = none;
        })
        ∷ (record {
          name = "reject-rest";
          prefix_set = none;
          route_action = some reject;
          next_hop = none;
        })
        ∷ []

    pub setup_filter : List String → Action (Unit {0})
    setup_filter [] = pure tt
    setup_filter (p ∷ ps) = do
      add_prefix_set "import-allow" (p ∷ ps)
      call accepts (add_policy "import-filter" import_statements)
      call accepts (add_policy_assignment imports "import-filter" reject)
