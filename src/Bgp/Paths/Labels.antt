-- ===== src/Bgp/Paths/Labels.antt =====
-- What BGP puts into the label table: entries that pop.
use gouter.Base.{
  nat_eq, eqb, Bool, ℕ, ◌≡◌, inl, inr, ap, subst, sym, ◌∙◌, List, [], ◌∷◌, Option, none, some,
  String, arith, Option-cases, Bool-cases, ◌==◌, if◌then◌else◌,
}
use gouter.Netip.{Addr, addr_eq, Prefix}
use gouter.Mpls.Lfib.{Lfib, LfibEntry, op_pop, lookup_label, new_lfib}
use gouter.Mpls.Lfib as LabelTable
use gouter.Mpls.Lfib.Laws.{lookup_label-IsMapStep}
use gouter.Bgp.Paths.{
  Family, ipv4_uc, ipv6_uc, ipv4_mpls, ipv6_mpls, sr_policy_ipv4, sr_policy_ipv6, other_family,
  Nlri, Attribute, BestPath, Speaker, extract_labelled_info, pop_entry, learn_label,
  handle_unicast_path, handle_labelled_path, handle_sr_policy, handle_path, handle_best_path,
}

-- Every entry of the table pops.
abbrev pub OnlyPops : Lfib → Type 0
OnlyPops l = (label : ℕ) (e : LfibEntry) → lookup_label l label ≡ some e → e.op ≡ op_pop

add-OnlyPops :
    (l : Lfib) (label : ℕ) (nh : Addr)
    → OnlyPops l
    → OnlyPops (LabelTable.add l (pop_entry label nh))
add-OnlyPops l label nh h k e found =
    let known = sym ((lookup_label-IsMapStep l k).added (pop_entry label nh)) ∙ found in
    elim (Bool-cases (eqb label k)) [
      | inl t ↦ ground (arith, t, known)
      | inr t ↦
          h k e
            (ap (λ b. if b then some (pop_entry label nh) else lookup_label l k) (sym t) ∙ known)
    ]

-- A speaker that has not panicked has a table whose entries pop.
abbrev pub Popping : Option Speaker → Type 0
Popping none = Unit
Popping (some s) = OnlyPops s.lfib

handle_unicast_path_labels : (s : Speaker) (p : BestPath) → (handle_unicast_path s p).lfib ≡ s.lfib
unfolding handle_unicast_path
handle_unicast_path_labels s p = ground arith

handle_sr_policy_labels : (s : Speaker) (p : BestPath) → (handle_sr_policy s p).lfib ≡ s.lfib
unfolding handle_sr_policy
handle_sr_policy_labels s p = ground arith

module _ (parse_addr : String → Option Addr) where
  learn_label-Popping :
      (s : Speaker) (prefix : Prefix) (nh : Addr) (label : ℕ) (labels : List ℕ)
      → OnlyPops s.lfib
      → Popping (learn_label parse_addr s prefix nh label labels)
  unfolding learn_label
  learn_label-Popping s prefix nh label labels h = elim (Option-cases (parse_addr s.router_id)) [
    | inl e ↦ rw (e, learn_label) tt
    | inr (id, e) ↦ elim (Bool-cases (nh == id)) [
      | inl t ↦ rw (e, learn_label, t) (add-OnlyPops s.lfib label nh h)
      | inr t ↦ rw (e, learn_label, t) h
    ]
  ]

  handle_labelled_path-Popping :
      (s : Speaker) (p : BestPath) → OnlyPops s.lfib → Popping (handle_labelled_path parse_addr s p)
  unfolding handle_labelled_path
  handle_labelled_path-Popping s p h = elim (Option-cases (extract_labelled_info p)) [
    | inl e ↦ rw (e, handle_labelled_path) h
    | inr ((prefix, nh, []), e) ↦ rw (e, handle_labelled_path) h
    | inr ((prefix, nh, l ∷ ls), e) ↦ elim (Bool-cases p.withdrawal) [
      | inl w ↦ rw (e, handle_labelled_path, w) h
      | inr w ↦ rw (e, handle_labelled_path, w) (learn_label-Popping s prefix nh l (l ∷ ls) h)
    ]
  ]

  module _ (s : Speaker) (n : Nlri) (attrs : List Attribute) (w : Bool) (h : OnlyPops s.lfib) where
    abbrev path : Family → BestPath
    path f = record { family = f; nlri = n; attrs = attrs; withdrawal = w }

    unicast : (f : Family) → OnlyPops (handle_unicast_path s (path f)).lfib
    unicast f = subst OnlyPops (sym (handle_unicast_path_labels s (path f))) h

    policy : (f : Family) → OnlyPops (handle_sr_policy s (path f)).lfib
    policy f = subst OnlyPops (sym (handle_sr_policy_labels s (path f))) h

    handle_path-Popping : (f : Family) → Popping (handle_path parse_addr s (path f))
    unfolding handle_path
    handle_path-Popping ipv4_uc = unicast ipv4_uc
    handle_path-Popping ipv6_uc = unicast ipv6_uc
    handle_path-Popping ipv4_mpls = handle_labelled_path-Popping s (path ipv4_mpls) h
    handle_path-Popping ipv6_mpls = handle_labelled_path-Popping s (path ipv6_mpls) h
    handle_path-Popping sr_policy_ipv4 = policy sr_policy_ipv4
    handle_path-Popping sr_policy_ipv6 = policy sr_policy_ipv6
    handle_path-Popping other_family = h

  -- Best paths put no entry into the label table but such as pop.
  pub handle_best_path-Popping :
      (s : Speaker) (ps : List BestPath)
      → OnlyPops s.lfib
      → Popping (handle_best_path parse_addr s ps)
  unfolding handle_best_path
  handle_best_path-Popping s [] h = h
  handle_best_path-Popping s (p ∷ ps) h =
      let first = handle_path-Popping s p.nlri p.attrs p.withdrawal h p.family in
      elim (Option-cases (handle_path parse_addr s p)) [
        | inl e ↦ rw (e, handle_best_path) tt
        | inr (s1, e) ↦
            rw (e, handle_best_path) (handle_best_path-Popping s1 ps (subst Popping e first))
      ]
