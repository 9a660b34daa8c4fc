-- ===== src/Router/Fib/Table.antt =====
-- The table as a finite map from prefixes: what `Add` and `Remove` do to it, and the invariant.
use mathlib.Core.List.Permᴰ
use mathlib.Core.List.{Permᴰ}
use gouter.Base.{
  ◌≡◌, ◌≢◌, refl, sym, ap, ap₂, subst, ◌∙◌, inl, inr, List, [], ◌∷◌, none, some, arith,
  if◌then◌else◌, Bool-cases, All, AllPairs, ◌==◌, beq→eq, beq→ne,
}
use gouter.Base.Perms.{AllPairs-perm}
use gouter.Netip.{Prefix, prefix_eq}
use gouter.Router.Fib.{FibEntry, Fib, new_fib, place, add, cut, remove, find_exact, has_exact}
use gouter.Router.Fib.Sort.{sort-perm, sort-IsSorted, IsSorted, NotLonger}

-- No two routes have the same prefix.
abbrev pub Apart : FibEntry → FibEntry → Type 0
Apart a b = a.prefix ≢ b.prefix

abbrev pub IsUnique : List FibEntry → Type 0
IsUnique xs = AllPairs Apart xs

pub record IsValid (f : Fib) : Type 0 where
  pub sorted : IsSorted f.routes
  pub unique : IsUnique f.routes

IsUnique-perm : {xs ys : List FibEntry} → Permᴰ xs ys → IsUnique xs → IsUnique ys
IsUnique-perm = AllPairs-perm Apart (λ a b h e. h (sym e))

module _ (q : Prefix) where
  find_exact-cons :
      (e : FibEntry) (xs ys : List FibEntry)
      → find_exact q xs ≡ find_exact q ys
      → find_exact q (e ∷ xs) ≡ find_exact q (e ∷ ys)
  unfolding find_exact
  find_exact-cons e xs ys h = ground arith

  find_exact_swap :
      (a b : FibEntry) (xs : List FibEntry)
      → a.prefix ≢ b.prefix
      → find_exact q (a ∷ b ∷ xs) ≡ find_exact q (b ∷ a ∷ xs)
  unfolding find_exact
  find_exact_swap a b xs h =
      ground (arith, prefix_eq.beq_iff a.prefix q, prefix_eq.beq_iff b.prefix q)

  -- Where no prefix stands twice, the order of the routes does not matter to a search.
  find_exact-perm :
      {xs ys : List FibEntry} → Permᴰ xs ys → IsUnique xs → find_exact q xs ≡ find_exact q ys
  find_exact-perm Permᴰ.nil u = refl
  find_exact-perm (Permᴰ.cons {a} {l₁ = xs} {l₂ = ys} e p) (h, u) =
      find_exact-cons a xs ys (find_exact-perm p u) ∙ ap (λ c. find_exact q (c ∷ ys)) e
  find_exact-perm (Permᴰ.swap {a} {b} {l} e f) ((h, hs), u) =
      find_exact_swap a b l h ∙ ap₂ (λ c d. find_exact q (c ∷ d ∷ l)) f e
  find_exact-perm (Permᴰ.trans p r) u = find_exact-perm p u ∙ find_exact-perm r (IsUnique-perm p u)

find_exact-place :
    (q : Prefix) (entry : FibEntry) (xs : List FibEntry)
    → find_exact q (place entry xs) ≡ (if entry.prefix == q then some entry else find_exact q xs)
unfolding find_exact place
find_exact-place q entry [] = refl
find_exact-place q entry (e ∷ es) = ground (
  arith,
  prefix_eq.beq_iff e.prefix entry.prefix,
  prefix_eq.beq_iff e.prefix q,
  prefix_eq.beq_iff entry.prefix q,
  find_exact-place q entry es,
)

place-Apart :
    (a entry : FibEntry) (xs : List FibEntry)
    → a.prefix ≢ entry.prefix
    → All (Apart a) xs
    → All (Apart a) (place entry xs)
unfolding place
place-Apart a entry [] n h = (n, tt)
place-Apart a entry (e ∷ es) n (h, hs) = elim (Bool-cases (e.prefix == entry.prefix)) [
  | inl t ↦ rw (t, place) (n, hs)
  | inr t ↦ rw (t, place) (h, place-Apart a entry es n hs)
]

place-IsUnique : (entry : FibEntry) (xs : List FibEntry) → IsUnique xs → IsUnique (place entry xs)
unfolding place
place-IsUnique entry [] u = (tt, tt)
place-IsUnique entry (e ∷ es) (h, u) = elim (Bool-cases (e.prefix == entry.prefix)) [
  | inl t ↦ rw (t, place) (subst (λ p. All (λ b. p ≢ b.prefix) es) (beq→eq _ _ t) h, u)
  | inr t ↦ rw (t, place) (place-Apart e entry es (beq→ne _ _ t) h, place-IsUnique entry es u)
]

cut-All {κ} :
    (P : FibEntry → Type κ) (q : Prefix) (xs : List FibEntry) → All P xs → All P (cut q xs)
unfolding cut
cut-All P q [] h = tt
cut-All P q (e ∷ es) (h, hs) = elim (Bool-cases (e.prefix == q)) [
  | inl t ↦ rw (t, cut) hs
  | inr t ↦ rw (t, cut) (h, cut-All P q es hs)
]

pub cut-AllPairs {κ} :
    (R : FibEntry → FibEntry → Type κ) (q : Prefix) (xs : List FibEntry)
    → AllPairs R xs
    → AllPairs R (cut q xs)
unfolding cut
cut-AllPairs R q [] h = tt
cut-AllPairs R q (e ∷ es) (h, hs) = elim (Bool-cases (e.prefix == q)) [
  | inl t ↦ rw (t, cut) hs
  | inr t ↦ rw (t, cut) (cut-All (R e) q es h, cut-AllPairs R q es hs)
]

pub find_exact_absent :
    (q : Prefix) (xs : List FibEntry) → All (λ b. q ≢ b.prefix) xs → find_exact q xs ≡ none
unfolding find_exact
find_exact_absent q [] h = refl
find_exact_absent q (e ∷ es) (h, hs) =
    ground (arith, prefix_eq.beq_iff e.prefix q, find_exact_absent q es hs)

pub find_exact-cut :
    (q p : Prefix) (xs : List FibEntry)
    → IsUnique xs
    → find_exact q (cut p xs) ≡ (if p == q then none else find_exact q xs)
unfolding find_exact cut
find_exact-cut q p [] u = ground arith
find_exact-cut q p (e ∷ es) (h, u) = elim (Bool-cases (e.prefix == q)) [
  | inl t ↦
      let gone = find_exact_absent e.prefix es h in
      let same = beq→eq e.prefix q t in
      ground
        (arith, prefix_eq.beq_iff e.prefix p, prefix_eq.beq_iff p q, ap (λ r. find_exact r es) same)
  | inr t ↦
      ground (arith, prefix_eq.beq_iff e.prefix p, prefix_eq.beq_iff p q, find_exact-cut q p es u)
]

pub new_fib-IsValid : IsValid new_fib
unfolding new_fib
new_fib-IsValid = record { sorted = tt; unique = tt }

-- `Add` and `Remove` keep a table valid: its prefixes distinct and the longer ones first.
pub add-remove-IsValid :
    (f : Fib) (entry : FibEntry) (p : Prefix)
    → IsValid f
    → IsValid (add f entry) × IsValid (remove f p)
unfolding add remove
add-remove-IsValid f entry p v = (
  record {
    sorted = sort-IsSorted (place entry f.routes);
    unique = IsUnique-perm (Permᴰ.symm (sort-perm _)) (place-IsUnique entry f.routes v.unique);
  },
  record {
    sorted = cut-AllPairs NotLonger p f.routes v.sorted;
    unique = cut-AllPairs Apart p f.routes v.unique;
  },
)

-- On a valid table `Add` is that of a finite map: the prefix of the entry finds the entry, and every
-- other prefix finds what it found.
pub has_exact-add :
    (f : Fib) (entry : FibEntry) (q : Prefix)
    → IsValid f
    → has_exact (add f entry) q ≡ (if entry.prefix == q then some entry else has_exact f q)
unfolding has_exact add
has_exact-add f entry q v =
    find_exact-perm q (sort-perm (place entry f.routes))
      (IsUnique-perm (Permᴰ.symm (sort-perm _)) (place-IsUnique entry f.routes v.unique))
    ∙ find_exact-place q entry f.routes

-- On a valid table `Remove` is that of a finite map: the prefix finds nothing, and every other prefix
-- finds what it found.
pub has_exact-remove :
    (f : Fib) (p q : Prefix)
    → IsValid f
    → has_exact (remove f p) q ≡ (if p == q then none else has_exact f q)
unfolding has_exact remove
has_exact-remove f p q v = find_exact-cut q p f.routes v.unique

-- On a valid table `Add` and `Remove` are those of a finite map: after an addition the prefix of the
-- entry finds the entry, after a removal the prefix finds nothing, and every other prefix finds what
-- it found before.
pub has_exact-add-remove :
    (f : Fib) (entry : FibEntry) (p q : Prefix)
    → IsValid f
    → (has_exact (add f entry) q ≡ (if entry.prefix == q then some entry else has_exact f q))
      × (has_exact (remove f p) q ≡ (if p == q then none else has_exact f q))
has_exact-add-remove f entry p q v = (has_exact-add f entry q v, has_exact-remove f p q v)
