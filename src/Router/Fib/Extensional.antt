-- ===== src/Router/Fib/Extensional.antt =====
-- A table is determined, up to the order of its routes, by what each prefix finds in it.
use mathlib.Core.List.Permᴰ
use mathlib.Core.List.{Permᴰ}
use gouter.Base.{
  ◌≡◌, refl, sym, ap, subst, ◌∙◌, inl, inr, List, [], ◌∷◌, none, some, arith, if◌then◌else◌,
  Bool-cases, All, ◌==◌, beq→eq, beq_self,
}
use gouter.Netip.{Addr, Prefix, prefix_eq}
use gouter.Router.Fib.{FibEntry, Fib, cut, find_exact, has_exact, lookup}
use gouter.Router.Fib.Order.{IsCanonical, lookup-perm}
use gouter.Router.Fib.Table.{
  Apart, IsUnique, IsValid, find_exact_absent, find_exact-cut, cut-AllPairs,
}

-- Every prefix finds the same.
abbrev pub SameMap : List FibEntry → List FibEntry → Type 0
SameMap xs ys = (q : Prefix) → find_exact q xs ≡ find_exact q ys

-- The route that a prefix finds, in front of the others.
cut-perm :
    (q : Prefix) (x : FibEntry) (ys : List FibEntry)
    → find_exact q ys ≡ some x
    → Permᴰ (x ∷ cut q ys) ys
unfolding find_exact cut
cut-perm q x [] e = cc
cut-perm q x (y ∷ ys) e = elim (Bool-cases (y.prefix == q)) [
  | inl t ↦ rw (t, cut) (Permᴰ.cons (ground (arith, e, t)) (Permᴰ.refl ys))
  | inr t ↦
      rw (t, cut)
        (Permᴰ.trans (Permᴰ.swap refl refl)
          (Permᴰ.cons refl (cut-perm q x ys (ground (arith, e, t)))))
]

-- What the other prefixes find once the first route is taken out of both.
SameMap-cut :
    (x : FibEntry) (xs ys : List FibEntry)
    → All (Apart x) xs
    → IsUnique ys
    → SameMap (x ∷ xs) ys
    → SameMap xs (cut x.prefix ys)
unfolding find_exact
SameMap-cut x xs ys h u same q = elim (Bool-cases (x.prefix == q)) [
  | inl t ↦
      subst (λ p. find_exact p xs ≡ none) (beq→eq x.prefix q t) (find_exact_absent x.prefix xs h)
      ∙ sym (find_exact-cut q x.prefix ys u ∙ ap (λ b. if b then none else find_exact q ys) t)
  | inr t ↦
      ap (λ b. if b then some x else find_exact q xs) (sym t)
      ∙ same q
      ∙ sym (find_exact-cut q x.prefix ys u ∙ ap (λ b. if b then none else find_exact q ys) t)
]

same_map-perm : (xs ys : List FibEntry) → IsUnique xs → IsUnique ys → SameMap xs ys → Permᴰ xs ys
unfolding find_exact
same_map-perm [] [] u v same = Permᴰ.nil
same_map-perm [] (y ∷ ys) u v same =
    cc (same y.prefix, ap (λ b. if b then some y else find_exact y.prefix ys) (beq_self y.prefix))
same_map-perm (x ∷ xs) ys (h, u) v same =
    let found : find_exact x.prefix ys ≡ some x =
      sym (same x.prefix)
      ∙ ap (λ b. if b then some x else find_exact x.prefix xs) (beq_self x.prefix) in
    let rest =
      same_map-perm xs (cut x.prefix ys) u (cut-AllPairs Apart x.prefix ys v)
        (SameMap-cut x xs ys h v same) in
    Permᴰ.trans (Permᴰ.cons refl rest) (cut-perm x.prefix x ys found)

-- Two valid tables in which every prefix finds the same find the same route for every address, if
-- no two routes are of one length and one network: `Lookup` sees the map alone, and neither the
-- order nor the history of the routes.
pub lookup-SameMap :
    (f g : Fib) (a : Addr)
    → IsValid f
    → IsValid g
    → IsCanonical f.routes
    → ((q : Prefix) → has_exact f q ≡ has_exact g q)
    → lookup f a ≡ lookup g a
unfolding has_exact
lookup-SameMap f g a v w c same =
    lookup-perm f g a c (same_map-perm f.routes g.routes v.unique w.unique same)
