-- ===== src/Mpls/Allocator.antt =====
-- The `LabelAllocator` of internal/mpls/lfib.go.
pub mod Cycle
pub mod Race
use gouter.Base.{
  ℕ, zero, suc, ◌+◌, Option, none, some, ltb, leb, if◌then◌else◌, u32, u64, List, [], ◌∷◌,
}
use gouter.Mpls.Label.{label_max, label_reserved_max}

pub record Allocator : Type 0 where
  pub next : ℕ

pub new_allocator : Allocator
new_allocator = record { next = label_reserved_max + 1 }

-- `atomic.AddUint64(&a.next, 1)` and `atomic.StoreUint64(&a.next, LabelReservedMax + 1)`.
pub add_next : Allocator → Allocator
add_next a = record { next = u64 (a.next + 1) }

pub reset_next : Allocator → Allocator
reset_next a = record { next = label_reserved_max + 1 }

-- What one round of `Allocate` does with the number that it got.
pub data Verdict : Type 0 where
  reset_and_retry : Verdict
  retry : Verdict
  give : ℕ → Verdict

pub judge : ℕ → Verdict
judge v =
    let label = u32 v in
    if ltb label_max label
    then reset_and_retry
    else (if leb label label_reserved_max then retry else give label)

-- The loop of `Allocate` with fuel; `none` is the end of the fuel.
pub allocate_loop : ℕ → Allocator → Option (ℕ × Allocator)
allocate_loop zero a = none
allocate_loop (suc n) a =
    let a' = add_next a in
    let fresh = allocate_loop n (reset_next a') in
    let later = allocate_loop n a' in
    elim (judge a'.next) [ reset_and_retry ↦ fresh | retry ↦ later | give label ↦ some (label, a') ]

-- Eighteen rounds are enough from every state.
abbrev pub allocate_fuel : ℕ
allocate_fuel = 18

pub allocate : Allocator → Option (ℕ × Allocator)
allocate a = allocate_loop allocate_fuel a

-- `Release` forgets its argument.
pub release : ℕ → Allocator → Allocator
release label a = a
