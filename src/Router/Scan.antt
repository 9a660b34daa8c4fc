-- ===== src/Router/Scan.antt =====
-- The loop that the forwarding table and the next hop resolver share: keep the best item so far,
-- and take another only if it matches and is strictly longer.
use gouter.Base.{
  ℕ, suc, ◌≤◌, ◌<◌, ◌≡◌, ◌⊎◌, inl, inr, refl, Bool, true, false, ◌&&◌, List, [], ◌∷◌, some, arith,
  ltb, if◌then◌else◌, Bool-cases, get_elem?, take, All, ltb→lt, ltb→le,
}

module _ {ℓ κ} {X : Type ℓ} {S : Type κ} (hit : X → Bool) (size : X → ℕ) (keep : X → S) where
  unfoldable pub scan : S → ℕ → List X → S × ℕ
  scan best len [] = (best, len)
  scan best len (x ∷ xs) =
      let better = hit x && ltb len (size x) in
      scan (if better then keep x else best) (if better then size x else len) xs

  -- An item that matches is no longer than `n`, or is shorter.
  abbrev pub AtMost : ℕ → X → Type 0
  AtMost n x = hit x ≡ true → size x ≤ n

  abbrev pub Below : ℕ → X → Type 0
  Below n x = hit x ≡ true → size x < n

  -- `x` is the first of the longest items that match, and longer than `len`.
  pub record IsBest (len : ℕ) (xs : List X) (x : X) : Type ℓ where
    pub index : ℕ
    pub stored : get_elem? xs index ≡ some x
    pub matches : hit x ≡ true
    pub longer : len < size x
    pub longest : All (AtMost (size x)) xs
    pub first : All (Below (size x)) (take index xs)

  abbrev pub Outcome : S → ℕ → List X → S × ℕ → Type (ℓ ⊔ κ)
  Outcome best len xs result =
      (All (AtMost len) xs × (result ≡ (best, len)))
      ⊎ ((x : X) × (result ≡ (keep x, size x)) × IsBest len xs x)

  module _ (x : X) (xs : List X) (best : S) (len : ℕ) (result : S × ℕ) where
    Outcome-better :
        hit x ≡ true
        → len < size x
        → Outcome (keep x) (size x) xs result
        → Outcome best len (x ∷ xs) result
    Outcome-better c l (inl (short, r)) = inr (
      x,
      r,
      record {
        index = 0;
        stored = refl;
        matches = c;
        longer = l;
        longest = (λ _. omega arith, short);
        first = tt;
      },
    )
    Outcome-better c l (inr (b, r, is)) = inr (
      b,
      r,
      record {
        index = suc is.index;
        stored = is.stored;
        matches = is.matches;
        longer = omega (arith, is.longer);
        longest = (λ _. omega (arith, is.longer), is.longest);
        first = (λ _. is.longer, is.first);
      },
    )

    Outcome-worse : AtMost len x → Outcome best len xs result → Outcome best len (x ∷ xs) result
    Outcome-worse w (inl (short, r)) = inl ((w, short), r)
    Outcome-worse w (inr (b, r, is)) = inr (
      b,
      r,
      record {
        index = suc is.index;
        stored = is.stored;
        matches = is.matches;
        longer = is.longer;
        longest = (λ c. omega (arith, is.longer, w c), is.longest);
        first = (λ c. omega (arith, is.longer, w c), is.first);
      },
    )

  module _ (best : S) (len : ℕ) (x : X) (xs : List X) where
    scan_better :
        hit x ≡ true → ltb len (size x) ≡ true → scan best len (x ∷ xs) ≡ scan (keep x) (size x) xs
    unfolding scan
    scan_better c l = rw (c, l, scan)

    scan_shorter : ltb len (size x) ≡ false → scan best len (x ∷ xs) ≡ scan best len xs
    unfolding scan
    scan_shorter l = elim (Bool-cases (hit x)) [ inl c ↦ rw (c, l, scan) | inr c ↦ rw (c, scan) ]

    scan_outside : hit x ≡ false → scan best len (x ∷ xs) ≡ scan best len xs
    unfolding scan
    scan_outside c = rw (c, scan)

  pub scan-Outcome : (best : S) (len : ℕ) (xs : List X) → Outcome best len xs (scan best len xs)
  scan-Outcome best len [] = inl (tt, unfold scan in refl)
  scan-Outcome best len (x ∷ xs) = elim (Bool-cases (hit x)) [
    | inr c ↦
        rw (scan_outside best len x xs c)
          (Outcome-worse x xs best len _ (λ d. absurd (cc)) (scan-Outcome best len xs))
    | inl c ↦ elim (Bool-cases (ltb len (size x))) [
      | inl l ↦
          rw (scan_better best len x xs c l)
            (Outcome-better x xs best len _ c (ltb→lt _ _ l) (scan-Outcome (keep x) (size x) xs))
      | inr l ↦
          rw (scan_shorter best len x xs l)
            (Outcome-worse x xs best len _ (λ _. ltb→le _ _ l) (scan-Outcome best len xs))
    ]
  ]
