-- ===== src/Router/Fib/Store.antt =====
-- internal/router/fib.go once more, with the array under its slice: `Lookup` returns a pointer into
-- the array, which the operations write in place.
pub mod Refines
pub mod Stale
use gouter.Base.{
  nat_eq, ℕ, zero, suc, ◌≤◌, Bool, ◌&&◌, List, [], ◌∷◌, ◌++◌, Option, none, some, ltb, leb,
  if◌then◌else◌, length, ◌==◌, get_elem?, take, replicate, overlay,
}
use gouter.Netip.{Addr, invalid, Prefix, contains}
use gouter.Router.Fib.{Fib, FibEntry, action_forward, bits, place, cut, sort}

-- What each array holds, up to its capacity, and the slice: the array that is in use and the number
-- of its slots.
pub record Store : Type 0 where
  pub arrays : ℕ → List FibEntry
  pub current : ℕ
  pub len : ℕ

pub record Pointer : Type 0 where
  pub array : ℕ
  pub index : ℕ

abbrev pub slots : Store → List FibEntry
slots s = s.arrays s.current

-- The table that the slice is.
abbrev pub view : Store → Fib
view s = record { routes = take s.len (slots s) }

abbrev pub read : Store → Pointer → Option FibEntry
read s p = get_elem? (s.arrays p.array) p.index

-- The slice becomes `routes` in its array, whose other slots stay as they are.
abbrev pub write_over : Store → List FibEntry → Store
write_over s routes = record s {
  arrays = λ k. if k == s.current then overlay routes (s.arrays k) else s.arrays k;
  len = length routes;
}

abbrev pub zero_entry : FibEntry
zero_entry = record {
  prefix = record { addr = invalid; bits_plus_one = 0 };
  next_hop = invalid;
  transport = "";
  action = action_forward;
  out_labels = [];
}

-- The slice becomes `routes` in a new array, with so many slots more.
abbrev pub move : ℕ → Store → List FibEntry → Store
move spare s routes = record {
  arrays = λ k. if k == suc s.current then routes ++ replicate spare zero_entry else s.arrays k;
  current = suc s.current;
  len = length routes;
}

-- `append` takes a new array only where the one in use has no room; how many slots more that one
-- has is the runtime's choice.
unfoldable pub store_add : (ℕ → ℕ) → Store → FibEntry → Store
store_add spare s entry =
    let routes = place entry (view s).routes in
    if leb (length routes) (length (slots s))
    then write_over s (sort routes)
    else move (spare (length routes)) s (sort routes)

-- `append(f.routes[:i], f.routes[i+1:]...)` moves what follows one slot to the front.
unfoldable pub store_remove : Store → Prefix → Store
store_remove s p = write_over s (cut p (view s).routes)

-- The loop of `Lookup`, with the slot of the best entry so far.
unfoldable pub slot_from : Addr → Option ℕ → ℕ → ℕ → List FibEntry → Option ℕ
slot_from a best best_len i [] = best
slot_from a best best_len i (e ∷ es) =
    let better = contains e.prefix a && ltb best_len (bits e) in
    slot_from a (if better then some i else best) (if better then bits e else best_len) (suc i) es

abbrev pub pointer_at : Store → Option ℕ → Option Pointer
pointer_at s none = none
pointer_at s (some i) = some (record { array = s.current; index = i })

unfoldable pub store_lookup : Store → Addr → Option Pointer
store_lookup s a = pointer_at s (slot_from a none 0 0 (view s).routes)

unfoldable pub new_store : Store
new_store = record { arrays = λ k. []; current = 0; len = 0 }

-- The slice is within its array.
abbrev pub IsStore : Store → Type 0
IsStore s = s.len ≤ length (slots s)
