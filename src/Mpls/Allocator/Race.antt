-- ===== src/Mpls/Allocator/Race.antt =====
-- Several goroutines in `Allocate` at once. `atomic.AddUint64` and `atomic.StoreUint64` are each
-- atomic; between them any other goroutine may step.
use gouter.Base.{ℕ, ◌≤◌, ◌<◌, ◌≡◌, none, some, arith, List, [], ◌∷◌, set, get_elem?}
use gouter.Mpls.Label.{label_max}
use gouter.Mpls.Allocator.{
  Allocator, add_next, reset_next, Verdict, reset_and_retry, retry, give, judge,
}

-- Where a goroutine stands: before the addition, before the store, or done with its label.
pub data Pc : Type 0 where
  adding : Pc
  storing : Pc
  done : ℕ → Pc

pub record System : Type 0 where
  pub alloc : Allocator
  pub threads : List Pc

-- Where the number from the addition leads.
pub after_add : Verdict → Pc
after_add reset_and_retry = storing
after_add retry = adding
after_add (give l) = done l

-- One atomic step of a goroutine, on the shared counter and its own place.
pub step_pc : Allocator → Pc → Allocator × Pc
step_pc a adding = (add_next a, after_add (judge (add_next a).next))
step_pc a storing = (reset_next a, adding)
step_pc a (done l) = (a, done l)

-- The scheduler picks goroutine `i`.
pub step : System → ℕ → System
step s i = elim (get_elem? s.threads i) [
  | none ↦ s
  | some pc ↦ record {
    alloc = (step_pc s.alloc pc).0;
    threads = set s.threads i (step_pc s.alloc pc).1;
  }
]

pub run : System → List ℕ → System
run s [] = s
run s (i ∷ is) = run (step s i) is

-- Both goroutines see the counter past the last label before either stores; the second store
-- comes after the first goroutine has its label.
abbrev pub clash : List ℕ
clash = 0 ∷ 1 ∷ 0 ∷ 0 ∷ 1 ∷ 1 ∷ []

-- A counter whose next two values are both past the last label.
abbrev pub AtWrap : Allocator → Type 0
AtWrap a = (label_max ≤ a.next) × (a.next < 0xffff_fffe)

-- Wherever the counter is at its wrap, two goroutines that allocate at once can be given the same
-- label, 17.
pub run-clash :
    (a : Allocator)
    → AtWrap a
    → (run (record { alloc = a; threads = adding ∷ adding ∷ [] }) clash).threads
      ≡ done 17 ∷ done 17 ∷ []
unfolding run step step_pc after_add judge add_next reset_next
run-clash a h = ground arith
