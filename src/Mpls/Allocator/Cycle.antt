-- ===== src/Mpls/Allocator/Cycle.antt =====
-- Which labels `Allocate` returns, and that it returns.
use gouter.Base.{
  ℕ, zero, suc, ◌+◌, ◌-◌, ◌%◌, ◌≤◌, ◌<◌, ◌≡◌, refl, sym, ap, ◌∙◌, Option, none, some, arith, u32,
  dec_lt, dec_le, subst, List, [], ◌∷◌, u64,
}
use gouter.Mpls.Label.{label_max, label_reserved_max}
use gouter.Mpls.Allocator.{
  Allocator, add_next, reset_next, reset_and_retry, retry, give, judge, allocate_loop, allocate,
}

-- The states that the allocator reaches: from the start, or after a label was given.
abbrev pub IsReady : Allocator → Type 0
IsReady a = (16 ≤ a.next) × (a.next ≤ label_max)

abbrev pub at_next : ℕ → Allocator
at_next n = record { next = n }

-- The labels that are ever given are 17 to the largest, one after the other, and around again.
abbrev pub period : ℕ
period = label_max - 16

abbrev pub following : ℕ → ℕ
following n = 17 + (n - 16) % period

-- One round of the loop.
module _ (n : ℕ) (a : Allocator) where
  loop-give :
      (l : ℕ) → judge (add_next a).next ≡ give l → allocate_loop (suc n) a ≡ some (l, add_next a)
  unfolding allocate_loop
  loop-give l h = rw (h, allocate_loop)

  loop-retry :
      judge (add_next a).next ≡ retry → allocate_loop (suc n) a ≡ allocate_loop n (add_next a)
  unfolding allocate_loop
  loop-retry h = rw (h, allocate_loop)

  loop-reset :
      judge (add_next a).next ≡ reset_and_retry
      → allocate_loop (suc n) a ≡ allocate_loop n (reset_next (add_next a))
  unfolding allocate_loop
  loop-reset h = rw (h, allocate_loop)

judge-give : (v : ℕ) → 15 < u32 v → u32 v ≤ label_max → judge v ≡ give (u32 v)
unfolding judge
judge-give v lo hi = ground arith

judge-retry : (v : ℕ) → u32 v ≤ 15 → judge v ≡ retry
unfolding judge
judge-retry v h = ground arith

judge-reset : (v : ℕ) → label_max < u32 v → judge v ≡ reset_and_retry
unfolding judge
judge-reset v h = ground arith

loop_low :
    (k n next : ℕ)
    → next + k ≡ label_max
    → next < label_max
    → 16 ≤ next
    → allocate_loop (suc n) (at_next next) ≡ some (suc next, at_next (suc next))
unfolding add_next
loop_low k n next e h lo =
    ground (arith, loop-give n (at_next next) (suc next), judge-give (suc next))

loop_high : (n : ℕ) → allocate_loop (suc (suc n)) (at_next label_max) ≡ some (17, at_next 17)
unfolding add_next reset_next
loop_high n =
    loop-reset (suc n) (at_next label_max) (judge-reset _ (omega arith))
    ∙ loop-give n (at_next 16) 17 (judge-give _ (omega arith) (omega arith))

-- From the start or after a label, `Allocate` returns the label after the last one; after the
-- largest label comes 17, and the state is again one in which this holds.
pub allocate-IsReady :
    (a : Allocator)
    → IsReady a
    → (allocate a ≡ some (following a.next, at_next (following a.next)))
      × IsReady (at_next (following a.next))
unfolding allocate
allocate-IsReady a h = (
  elim (dec_lt a.next label_max) [
    | yes p ↦
        rw (loop_low (label_max - a.next) 17 a.next (omega arith) p (omega arith))
          (ap (λ n. some (n, at_next n)) (omega arith))
    | no p ↦
        let e : a.next ≡ label_max = omega arith in
        subst (λ n. allocate_loop 18 (at_next n) ≡ some (following n, at_next (following n)))
          (sym e) (loop_high 16)
  ],
  (omega arith, omega arith),
)

-- The loop on a counter whose low half is `k` short of 16.
loop_reserved :
    (k n : ℕ) (a : Allocator)
    → k < n
    → u32 (u64 (a.next + 1)) + k ≡ 16
    → (a' : Allocator) × (allocate_loop n a ≡ some (16, a'))
unfolding add_next
loop_reserved zero (suc n) a h e = (
  add_next a,
  loop-give n a 16
      (judge-give (u64 (a.next + 1)) (omega arith) (omega arith) ∙ ap give (omega arith)),
)
loop_reserved (suc k) (suc n) a h e =
    let (a', r) = loop_reserved k n (add_next a) (omega arith) (omega arith) in
    (a', loop-retry n a (judge-retry (u64 (a.next + 1)) (omega arith)) ∙ r)
loop_reserved k zero a h e = absurd (omega arith)

-- From every value of the counter `Allocate` returns, and never a reserved label or one that
-- does not fit 20 bits.
pub allocate_total :
    (a : Allocator)
    → (label : ℕ) × (a' : Allocator) × (allocate a ≡ some (label, a'))
      × (label_reserved_max < label)
      × (label ≤ label_max)
unfolding allocate add_next reset_next
allocate_total a = elim (dec_le (u32 (u64 (a.next + 1))) 15) [
  | yes p ↦
      let (a', r) = loop_reserved (16 - u32 (u64 (a.next + 1))) 18 a (omega arith) (omega arith) in
      (16, a', r, omega arith, omega arith)
  | no p ↦ elim (dec_lt label_max (u32 (u64 (a.next + 1)))) [
    | yes q ↦ (
      17,
      at_next 17,
      loop-reset 17 a (judge-reset _ q)
          ∙ loop-give 16 (at_next 16) 17 (judge-give _ (omega arith) (omega arith)),
      omega arith,
      omega arith,
    )
    | no q ↦ (
      u32 (u64 (a.next + 1)),
      add_next a,
      loop-give 17 a _ (judge-give _ (omega arith) (omega arith)),
      omega arith,
      omega arith,
    )
  ]
]

-- The labels of `n` calls in a row.
pub allocate_many : ℕ → Allocator → Option (List ℕ)
allocate_many zero a = some []
allocate_many (suc n) a = elim (allocate a) [
  | none ↦ none
  | some (l, a') ↦ elim (allocate_many n a') [ none ↦ none | some ls ↦ some (l ∷ ls) ]
]

-- The labels that come after `from`, as a plain list.
pub run_of : ℕ → ℕ → List ℕ
run_of zero from = []
run_of (suc n) from = following from ∷ run_of n (following from)

-- Every number of calls in a row returns, with the run of labels from the state on.
allocate_many-eq : (n : ℕ) (a : Allocator) → IsReady a → allocate_many n a ≡ some (run_of n a.next)
unfolding allocate_many run_of
allocate_many-eq zero a h = refl
allocate_many-eq (suc n) a h =
    let (step, ready) = allocate-IsReady a h in
    rw (step, allocate_many) (ground (arith, allocate_many-eq n (at_next (following a.next)) ready))
