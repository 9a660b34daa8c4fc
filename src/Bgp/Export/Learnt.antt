-- ===== src/Bgp/Export/Learnt.antt =====
-- What the routers learn from an exported route.
use gouter.Base.{
  string_eq, nat_eq, ℕ, ◌<◌, ◌≡◌, ◌≢◌, ◌∙◌, true, [], ◌∷◌, Option, some, String, arith,
  if◌then◌else◌, ◌==◌,
}
use gouter.Netip.{Addr, addr_eq, is_valid, Prefix, prefix_eq}
use gouter.Mpls.Lfib.{Lfib, lookup_label}
use gouter.Mpls.Lfib.Laws.{lookup_label-IsMapStep}
use gouter.Router.Fib.{Fib, FibEntry, action_forward, action_push, has_exact}
use gouter.Mpls.Lfib as LabelTable
use gouter.Router.Fib as Table
use gouter.Router.Fib.Table.{IsValid, add-remove-IsValid, has_exact-add}
use gouter.Bgp.Paths.{
  Speaker, handle_path, handle_labelled_path, learn_label, extract_labelled_info, valid_next_hop,
  extract_next_hop, push_entry, pop_entry, resolve_transport,
}
use gouter.Bgp.Export.{exported_path}

module _ (parse_addr : String → Option Addr) (prefix : Prefix) (nh : Addr) where
  -- A router whose own address is the next hop of an exported label pops that label.
  pub exported_path-own :
      (s : Speaker) (l : ℕ)
      → 0 < l
      → is_valid nh ≡ true
      → parse_addr s.router_id ≡ some nh
      → (s' : Speaker) × (handle_path parse_addr s (exported_path prefix nh l) ≡ some s')
        × (lookup_label s'.lfib l ≡ some (pop_entry l nh))
  unfolding exported_path handle_path handle_labelled_path learn_label extract_labelled_info
      valid_next_hop extract_next_hop
  exported_path-own s l pos valid own = (
    record s { lfib = LabelTable.add s.lfib (pop_entry l nh) },
    ground (arith, valid, own, addr_eq.beq_iff nh nh),
    (lookup_label-IsMapStep s.lfib l).added (pop_entry l nh) ∙ ground arith,
  )

  -- Any other router pushes it.
  pub exported_path-other :
      (s : Speaker) (l : ℕ) (self : Addr)
      → 0 < l
      → is_valid nh ≡ true
      → parse_addr s.router_id ≡ some self
      → nh ≢ self
      → IsValid s.fib
      → (s' : Speaker) × (handle_path parse_addr s (exported_path prefix nh l) ≡ some s')
        × IsValid s'.fib
        × ((q : Prefix)
            → has_exact s'.fib q ≡ (
                if prefix == q
                then some (push_entry prefix nh (l ∷ []) (resolve_transport s nh))
                else has_exact s.fib q))
  unfolding exported_path handle_path handle_labelled_path learn_label extract_labelled_info
      valid_next_hop extract_next_hop
  exported_path-other s l self pos valid known ne v =
      let e = push_entry prefix nh (l ∷ []) (resolve_transport s nh) in
      (
        record s { fib = Table.add s.fib e },
        ground (arith, valid, known, addr_eq.beq_iff nh self),
        (add-remove-IsValid s.fib e prefix v).0,
        λ q. has_exact-add s.fib e q v,
      )
