-- ===== src/Base/Dict.antt =====
-- Go maps as association lists with one entry to a key. The order of a list is the order in
-- which a `range` over the map visits it: Go leaves that order open, so what is proved of a loop
-- over a map is proved of every list.
use gouter.Base.Tests.{if◌then◌else◌, Bool-cases}
use gouter.Base.Equality.{Eq, ◌==◌, beq→eq, beq→ne}
use gouter.Base.Lists.{All, AllPairs}
use mathlib.Core.Path.{◌≡◌, refl, subst, ap₂}
use mathlib.Core.Logic.{inl, inr, ◌≢◌}
use mathlib.Core.Option.{Option, none, some}
use mathlib.Core.List.{List, [], ◌∷◌}
use native.Mathlib.Omega.{arith}

module _ {ℓ κ} {K : Type ℓ} {V : Type κ} ⦃e : Eq K⦄ where
  -- `m[k]`
  unfoldable pub lookup : K → List (K × V) → Option V
  lookup key [] = none
  lookup key ((k, v) ∷ rest) = if k == key then some v else lookup key rest

  -- `m[k] = v`
  unfoldable pub insert : K → V → List (K × V) → List (K × V)
  insert key value [] = (key, value) ∷ []
  insert key value ((k, v) ∷ rest) =
      if k == key then (key, value) ∷ rest else (k, v) ∷ insert key value rest

  -- `delete(m, k)`
  unfoldable pub delete : K → List (K × V) → List (K × V)
  delete k [] = []
  delete k ((j, w) ∷ m) = if j == k then delete k m else (j, w) ∷ delete k m

  pub lookup-insert :
      (key other : K) (value : V) (map : List (K × V))
      → lookup other (insert key value map)
        ≡ (if key == other then some value else lookup other map)
  unfolding lookup insert
  lookup-insert key other value [] = refl
  lookup-insert key other value ((k, v) ∷ rest) = ground (
    arith,
    e.beq_iff k key,
    e.beq_iff k other,
    e.beq_iff key other,
    lookup-insert key other value rest,
  )

  pub lookup-delete :
      (k j : K) (m : List (K × V)) → lookup j (delete k m) ≡ (if k == j then none else lookup j m)
  unfolding lookup delete
  lookup-delete k j [] = ground arith
  lookup-delete k j ((i, w) ∷ m) =
      ground (arith, e.beq_iff k j, e.beq_iff i k, e.beq_iff i j, lookup-delete k j m)

  pub All-insert {μ} :
      (P : K × V → Type μ) (k : K) (v : V) (m : List (K × V))
      → P (k, v)
      → All P m
      → All P (insert k v m)
  unfolding insert
  All-insert P k v [] p h = (p, tt)
  All-insert P k v ((j, w) ∷ m) p (h, hs) = elim (Bool-cases (j == k)) [
    | inl e ↦ rw (e, insert) (p, hs)
    | inr e ↦ rw (e, insert) (h, All-insert P k v m p hs)
  ]

  pub lookup-insert_self : (k : K) (v : V) (m : List (K × V)) → lookup k (insert k v m) ≡ some v
  lookup-insert_self k v m = ground (arith, lookup-insert k k v m, e.beq_iff k k)

  -- A key that is there keeps its value when a new key comes in.
  pub lookup-insert_kept :
      (k q : K) (v w : V) (m : List (K × V))
      → lookup k m ≡ none
      → lookup q m ≡ some w
      → lookup q (insert k v m) ≡ some w
  lookup-insert_kept k q v w m absent there = elim (Bool-cases (k == q)) [
    | inl same ↦ absurd (ground (arith, beq→eq k q same, absent, there))
    | inr other ↦ ground (arith, lookup-insert k q v m, other, there)
  ]

  -- The keys of a map differ from a key that it does not hold.
  pub lookup-none : (k : K) (m : List (K × V)) → lookup k m ≡ none → All (λ b. b.0 ≢ k) m
  unfolding lookup
  lookup-none k [] h = tt
  lookup-none k ((j, w) ∷ m) h = elim (Bool-cases (j == k)) [
    | inl same ↦ absurd (ground (arith, same, h))
    | inr other ↦ (beq→ne j k other, lookup-none k m (ground (arith, other, h)))
  ]

  -- What holds of every value holds of the one that is found.
  pub lookup-All {μ} :
      (P : K × V → Type μ) (k : K) (v : V) (m : List (K × V))
      → All P m
      → lookup k m ≡ some v
      → P (k, v)
  unfolding lookup
  lookup-All P k v [] hs found = cc
  lookup-All P k v ((j, w) ∷ m) (h, hs) found = elim (Bool-cases (j == k)) [
    | inl same ↦
        let value : w ≡ v = ground (arith, same, found) in
        subst P (ap₂ (λ x y. (x, y)) (beq→eq j k same) value) h
    | inr other ↦ lookup-All P k v m hs (ground (arith, other, found))
  ]

  -- A new key comes last.
  pub AllPairs-insert {μ} :
      (R : K × V → K × V → Type μ) (k : K) (v : V) (m : List (K × V))
      → lookup k m ≡ none
      → All (λ b. R b (k, v)) m
      → AllPairs R m
      → AllPairs R (insert k v m)
  unfolding insert lookup
  AllPairs-insert R k v [] absent new u = (tt, tt)
  AllPairs-insert R k v ((j, w) ∷ m) absent (n, new) (h, u) = elim (Bool-cases (j == k)) [
    | inl same ↦ absurd (ground (arith, same, absent))
    | inr other ↦
        rw (other, insert)
          (
            All-insert (R (j, w)) k v m n h,
            AllPairs-insert R k v m (ground (arith, other, absent)) new u,
          )
  ]
