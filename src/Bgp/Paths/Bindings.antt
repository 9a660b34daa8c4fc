-- ===== src/Bgp/Paths/Bindings.antt =====
-- What a run of best paths leaves in the label table, label by label.
use gouter.Base.{
  nat_eq, string_eq, eqb, ℕ, ◌≡◌, refl, ap, sym, ◌∙◌, Bool, List, [], ◌∷◌, ◌++◌, Option, none, some,
  String, ◌==◌, if◌then◌else◌, arith, not, ◌&&◌, Bool-cases, inl, inr, beq→eq,
}
use gouter.Netip.{Addr, addr_eq, is_valid}
use gouter.Mpls.Lfib.{Lfib, LfibEntry, lookup_label}
use gouter.Mpls.Lfib.Laws.{lookup_label-IsMapStep}
use gouter.Bgp.Paths.{
  Family, ipv4_mpls, ipv6_mpls, Nlri, labelled, Attribute, BestPath, Speaker, extract_next_hop,
  pop_entry, handle_best_path,
}
use gouter.Bgp.Paths.Changes.{labelled_labels, labels_after}
use gouter.Bgp.Paths.Effects.{Handled, handle_path-Handled}

module _ (self : Addr) where
  -- The label that a path binds: the first of an announcement of the router itself.
  unfoldable pub first_label : List Attribute → Bool → List ℕ → Option ℕ
  first_label attrs w [] = none
  first_label attrs w (l ∷ ls) =
      let nh = extract_next_hop attrs in
      if is_valid nh && (not w && nh == self) then some l else none

  unfoldable pub bound_by : Family → Nlri → List Attribute → Bool → Option ℕ
  bound_by ipv4_mpls (labelled p ls) attrs w = first_label attrs w ls
  bound_by ipv6_mpls (labelled p ls) attrs w = first_label attrs w ls
  bound_by _ _ attrs w = none

  -- What a label has after a binding, given what it had.
  abbrev pub rebound : ℕ → Option LfibEntry → Option ℕ → Option LfibEntry
  rebound k old none = old
  rebound k old (some l) = if eqb l k then some (pop_entry l self) else old

  -- What the paths, one after the other, leave at a label.
  unfoldable pub bound_at : ℕ → Option LfibEntry → List BestPath → Option LfibEntry
  bound_at k old [] = old
  bound_at k old (p ∷ ps) =
      bound_at k (rebound k old (bound_by p.family p.nlri p.attrs p.withdrawal)) ps

  pub bound_at-append :
      (k : ℕ) (old : Option LfibEntry) (ps qs : List BestPath)
      → bound_at k old (ps ++ qs) ≡ bound_at k (bound_at k old ps) qs
  unfolding bound_at
  bound_at-append k old [] qs = refl
  bound_at-append k old (p ∷ ps) qs =
      bound_at-append k (rebound k old (bound_by p.family p.nlri p.attrs p.withdrawal)) ps qs

  module _ (t : Addr → String) (lfib : Lfib) (k : ℕ) (attrs : List Attribute) (w : Bool) where
    labelled_labels_bound :
        (ls : List ℕ)
        → lookup_label (labelled_labels self t lfib attrs w ls) k
          ≡ rebound k (lookup_label lfib k) (first_label attrs w ls)
    unfolding labelled_labels first_label
    labelled_labels_bound [] = refl
    labelled_labels_bound (l ∷ ls) =
        let nh = extract_next_hop attrs in
        elim (Bool-cases (is_valid nh && (not w && nh == self))) [
          | inl own ↦
              let same : nh ≡ self = beq→eq nh self (ground (arith, own)) in
              rw own (
                (lookup_label-IsMapStep lfib k).added (pop_entry l nh)
                ∙ ap (λ a. if eqb l k then some (pop_entry l a) else lookup_label lfib k) same)
          | inr other ↦ rw other refl
        ]

    labels_after_bound :
        (f : Family) (n : Nlri)
        → lookup_label (labels_after self t lfib f n attrs w) k
          ≡ rebound k (lookup_label lfib k) (bound_by f n attrs w)
    unfolding labels_after bound_by
    labels_after_bound ipv4_mpls (labelled p ls) = labelled_labels_bound ls
    labels_after_bound ipv6_mpls (labelled p ls) = labelled_labels_bound ls
    labels_after_bound _ _ = refl

-- Where the router's own id parses, a run of best paths leaves at each label what the last binding of
-- it says, or what was there before: a pop, and withdrawals take nothing out.
pub handle_best_path-bound_at :
    (parse_addr : String → Option Addr) (self : Addr) (s : Speaker) (ps : List BestPath)
    (s' : Speaker) (k : ℕ)
    → parse_addr s.router_id ≡ some self
    → handle_best_path parse_addr s ps ≡ some s'
    → lookup_label s'.lfib k ≡ bound_at self k (lookup_label s.lfib k) ps
unfolding handle_best_path bound_at Handled
handle_best_path-bound_at parse_addr self s [] s' k known e =
    let same : s ≡ s' = cc e in ap (λ x. lookup_label x.lfib k) (sym same)
handle_best_path-bound_at parse_addr self s (p ∷ ps) s' k known e =
    let (s1, step, fol) =
      handle_path-Handled parse_addr self s p.family p.nlri p.attrs p.withdrawal known in
    let rest : handle_best_path parse_addr s1 ps ≡ some s' =
      sym (rw (step, handle_best_path) refl) ∙ e in
    handle_best_path-bound_at parse_addr self s1 ps s' k (ap parse_addr fol.same_id ∙ known) rest
    ∙ ap (λ old. bound_at self k old ps)
        (ap (λ l. lookup_label l k) fol.labels
          ∙ labels_after_bound self _ s.lfib k p.attrs p.withdrawal p.family p.nlri)
