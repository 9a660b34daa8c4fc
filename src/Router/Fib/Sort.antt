-- ===== src/Router/Fib/Sort.antt =====
-- The exchange sort: longer prefixes first, and the same entries.
use mathlib.Core.List.Permᴰ
use mathlib.Core.List.{Permᴰ}
use gouter.Base.{
  ℕ, zero, suc, ◌≤◌, ◌≡◌, refl, ap, ◌∙◌, inl, inr, true, false, List, [], ◌∷◌, arith, ltb,
  if◌then◌else◌, Bool-cases, length, All, AllPairs, ltb→lt, ltb→le,
}
use gouter.Base.Perms.{All-perm}
use gouter.Router.Fib.{FibEntry, bits, pass, sort_from, sort}

module _ (x z : FibEntry) (zs : List FibEntry) where
  pass_swap : ltb (bits x) (bits z) ≡ true → pass x (z ∷ zs) ≡ ((pass z zs).0, x ∷ (pass z zs).1)
  unfolding pass
  pass_swap h = rw (h, pass)

  pass_keep : ltb (bits x) (bits z) ≡ false → pass x (z ∷ zs) ≡ ((pass x zs).0, z ∷ (pass x zs).1)
  unfolding pass
  pass_keep h = rw (h, pass)

-- An inner loop only moves entries.
pass-perm : (x : FibEntry) (xs : List FibEntry) → Permᴰ ((pass x xs).0 ∷ (pass x xs).1) (x ∷ xs)
pass-perm x [] = unfold pass in Permᴰ.refl _
pass-perm x (z ∷ zs) = elim (Bool-cases (ltb (bits x) (bits z))) [
  | inl h ↦
      rw (pass_swap x z zs h)
        (Permᴰ.trans (Permᴰ.swap refl refl) (Permᴰ.cons refl (pass-perm z zs)))
  | inr h ↦ rw (pass_keep x z zs h) (
      Permᴰ.trans (Permᴰ.swap refl refl)
        (Permᴰ.trans (Permᴰ.cons refl (pass-perm x zs)) (Permᴰ.swap refl refl)))
]

-- No entry is longer than what the inner loop leaves in front.
abbrev pub NotLonger : FibEntry → FibEntry → Type 0
NotLonger a b = bits b ≤ bits a

pass-max :
    (x : FibEntry) (xs : List FibEntry)
    → (bits x ≤ bits (pass x xs).0) × All (NotLonger (pass x xs).0) (pass x xs).1
pass-max x [] = unfold pass in (omega arith, tt)
pass-max x (z ∷ zs) = elim (Bool-cases (ltb (bits x) (bits z))) [
  | inl h ↦
      let (m, all) = pass-max z zs in
      rw (pass_swap x z zs h) (omega (arith, ltb→lt _ _ h), (omega (arith, ltb→lt _ _ h), all))
  | inr h ↦
      let (m, all) = pass-max x zs in
      rw (pass_keep x z zs h) (m, (omega (arith, ltb→le _ _ h), all))
]

sort_from-perm : (n : ℕ) (xs : List FibEntry) → Permᴰ (sort_from n xs) xs
unfolding sort_from
sort_from-perm zero xs = Permᴰ.refl xs
sort_from-perm (suc n) [] = Permᴰ.nil
sort_from-perm (suc n) (x ∷ xs) =
    Permᴰ.trans (Permᴰ.cons refl (sort_from-perm n (pass x xs).1)) (pass-perm x xs)

-- The sort only moves entries.
pub sort-perm : (xs : List FibEntry) → Permᴰ (sort xs) xs
unfolding sort
sort-perm xs = sort_from-perm (length xs) xs

abbrev pub IsSorted : List FibEntry → Type 0
IsSorted xs = AllPairs NotLonger xs

length-pass : (x : FibEntry) (xs : List FibEntry) → length (pass x xs).1 ≡ length xs
unfolding pass
length-pass x [] = refl
length-pass x (z ∷ zs) = ap suc (length-pass (if ltb (bits x) (bits z) then z else x) zs)

sort_from-IsSorted : (n : ℕ) (xs : List FibEntry) → length xs ≤ n → IsSorted (sort_from n xs)
unfolding sort_from
sort_from-IsSorted zero [] h = tt
sort_from-IsSorted zero (x ∷ xs) h = absurd (omega arith)
sort_from-IsSorted (suc n) [] h = tt
sort_from-IsSorted (suc n) (x ∷ xs) h = (
  All-perm (NotLonger (pass x xs).0) (Permᴰ.symm (sort_from-perm n (pass x xs).1))
      (pass-max x xs).1,
  sort_from-IsSorted n (pass x xs).1 (omega (arith, length-pass x xs)),
)

-- The sort ends with longer prefixes before shorter ones.
pub sort-IsSorted : (xs : List FibEntry) → IsSorted (sort xs)
unfolding sort
sort-IsSorted xs = sort_from-IsSorted (length xs) xs (omega arith)

length-sort_from : (n : ℕ) (xs : List FibEntry) → length (sort_from n xs) ≡ length xs
unfolding sort_from
length-sort_from zero xs = refl
length-sort_from (suc n) [] = refl
length-sort_from (suc n) (x ∷ xs) = ap suc (length-sort_from n (pass x xs).1 ∙ length-pass x xs)

pub length-sort : (xs : List FibEntry) → length (sort xs) ≡ length xs
unfolding sort
length-sort xs = length-sort_from (length xs) xs
