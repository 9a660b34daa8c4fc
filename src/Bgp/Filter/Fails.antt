-- ===== src/Bgp/Filter/Fails.antt =====
-- The set-up of the filter only makes calls.
use gouter.Base.{Bool, List, [], ◌∷◌, Option, String}
use gouter.Netip.{Prefix}
use gouter.Bgp.Server.{Call}
use gouter.Bgp.Server.Actions.{Quiet, Quiet-call, Quiet-pure, Quiet-then}
use gouter.Bgp.Filter.{add_prefix_set, setup_filter}

module _ (parse_prefix : String → Option Prefix) (accepts : Call → Bool) where
  pub setup_filter-Quiet : (filter : List String) → Quiet (setup_filter parse_prefix accepts filter)
  unfolding setup_filter add_prefix_set
  setup_filter-Quiet [] = Quiet-pure
  setup_filter-Quiet (p ∷ ps) =
      Quiet-then _ _ (Quiet-call accepts _)
        (Quiet-then _ _ (Quiet-call accepts _) (Quiet-call accepts _))
