-- ===== src/Bgp/Paths/Withdrawals.antt =====
-- What a withdrawal leaves alone.
use gouter.Base.{
  ◌≡◌, refl, sym, ◌∙◌, true, List, [], ◌∷◌, Option, some, String, arith, All, subst, Option-cases,
  inl, inr,
}
use gouter.Netip.{Addr, addr_eq}
use gouter.Router.Fib as Table
use gouter.Bgp.Paths.{
  Family, ipv4_uc, ipv6_uc, ipv4_mpls, ipv6_mpls, sr_policy_ipv4, sr_policy_ipv6, other_family,
  Nlri, Attribute, BestPath, Speaker, extract_unicast_info, extract_labelled_info,
  handle_unicast_path, handle_labelled_path, handle_sr_policy, handle_path, handle_best_path,
}

abbrev withdrawn : Family → Nlri → List Attribute → BestPath
withdrawn f n attrs = record { family = f; nlri = n; attrs = attrs; withdrawal = true }

module _ (parse_addr : String → Option Addr) where
  -- The speaker after a path, with the labels that it had.
  abbrev pub KeepsLabels : Speaker → Option Speaker → Type 0
  KeepsLabels s r = (s' : Speaker) × (r ≡ some s') × (s'.lfib ≡ s.lfib)

  handle_unicast_path-withdrawal :
      (s : Speaker) (p : BestPath) → p.withdrawal ≡ true → (handle_unicast_path s p).lfib ≡ s.lfib
  unfolding handle_unicast_path extract_unicast_info
  handle_unicast_path-withdrawal s p w = elim (Option-cases (extract_unicast_info p)) [
    | inl e ↦ ground (arith, e)
    | inr (i, e) ↦ ground (arith, e, w)
  ]

  handle_sr_policy_labels : (s : Speaker) (p : BestPath) → (handle_sr_policy s p).lfib ≡ s.lfib
  unfolding handle_sr_policy
  handle_sr_policy_labels s p = ground arith

  handle_labelled_path-withdrawal :
      (s : Speaker) (p : BestPath)
      → p.withdrawal ≡ true
      → KeepsLabels s (handle_labelled_path parse_addr s p)
  unfolding handle_labelled_path
  handle_labelled_path-withdrawal s p w = elim (Option-cases (extract_labelled_info p)) [
    | inl e ↦ (s, ground (arith, e), refl)
    | inr ((prefix, nh, []), e) ↦ (s, ground (arith, e), refl)
    | inr ((prefix, nh, l ∷ ls), e) ↦
        (record s { fib = Table.remove s.fib prefix }, ground (arith, e, w), refl)
  ]

  handle_path-withdrawal :
      (s : Speaker) (f : Family) (n : Nlri) (attrs : List Attribute)
      → KeepsLabels s (handle_path parse_addr s (withdrawn f n attrs))
  unfolding handle_path
  handle_path-withdrawal s ipv4_uc n attrs =
      (_, refl, handle_unicast_path-withdrawal s (withdrawn ipv4_uc n attrs) refl)
  handle_path-withdrawal s ipv6_uc n attrs =
      (_, refl, handle_unicast_path-withdrawal s (withdrawn ipv6_uc n attrs) refl)
  handle_path-withdrawal s ipv4_mpls n attrs =
      handle_labelled_path-withdrawal s (withdrawn ipv4_mpls n attrs) refl
  handle_path-withdrawal s ipv6_mpls n attrs =
      handle_labelled_path-withdrawal s (withdrawn ipv6_mpls n attrs) refl
  handle_path-withdrawal s sr_policy_ipv4 n attrs =
      (_, refl, handle_sr_policy_labels s (withdrawn sr_policy_ipv4 n attrs))
  handle_path-withdrawal s sr_policy_ipv6 n attrs =
      (_, refl, handle_sr_policy_labels s (withdrawn sr_policy_ipv6 n attrs))
  handle_path-withdrawal s other_family n attrs = (s, refl, refl)

  -- A run of withdrawals never panics and takes no label out of the label table.
  handle_best_path-withdrawals :
      (s : Speaker) (ps : List BestPath)
      → All (λ p. p.withdrawal ≡ true) ps
      → KeepsLabels s (handle_best_path parse_addr s ps)
  unfolding handle_best_path
  handle_best_path-withdrawals s [] h = (s, refl, refl)
  handle_best_path-withdrawals s (p ∷ ps) (w, h) =
      let (s1, step, same) : KeepsLabels s (handle_path parse_addr s p) =
        subst (λ b. KeepsLabels s (handle_path parse_addr s (record p { withdrawal = b }))) (sym w)
          (handle_path-withdrawal s p.family p.nlri p.attrs) in
      let (s', done, kept) = handle_best_path-withdrawals s1 ps h in
      (s', rw (step, handle_best_path) done, kept ∙ same)
