-- ===== src/Router/Fib/Longest.antt =====
-- `Lookup` finds the longest match.
use gouter.Base.{
  ℕ, ◌≤◌, ◌<◌, ◌≡◌, ◌⊎◌, inl, inr, refl, ap, ◌∙◌, Bool, true, false, List, [], ◌∷◌, Option, none,
  some, arith, Bool-cases, if◌then◌else◌, ltb, ◌&&◌, All, All-imp,
}
use gouter.Netip.{Addr, contains}
use gouter.Router.Scan
use gouter.Router.Scan.{scan, scan-Outcome}
use gouter.Router.Fib.Sort.{NotLonger, IsSorted}
use gouter.Router.Fib.Table.{IsValid}
use gouter.Router.Fib.{FibEntry, Fib, bits, lookup_from, lookup}

abbrev pub hits : Addr → FibEntry → Bool
hits a e = contains e.prefix a

lookup_from-eq :
    (a : Addr) (best : Option FibEntry) (len : ℕ) (es : List FibEntry)
    → lookup_from a best len es ≡ (scan (hits a) bits some best len es).0
unfolding lookup_from scan
lookup_from-eq a best len [] = refl
lookup_from-eq a best len (e ∷ es) =
    let better = contains e.prefix a && ltb len (bits e) in
    lookup_from-eq a (if better then some e else best) (if better then bits e else len) es

-- `e` is the first of the longest routes that contain the address.
abbrev pub IsLongest : Addr → List FibEntry → FibEntry → Type 0
IsLongest a es e = Scan.IsBest (hits a) bits some 0 es e

contains-pos : (e : FibEntry) (a : Addr) → contains e.prefix a ≡ true → 0 < bits e
unfolding contains
contains-pos e a h = ground arith

abbrev pub Misses : Addr → FibEntry → Type 0
Misses a e = contains e.prefix a ≡ false

miss : (a : Addr) (e : FibEntry) → Scan.AtMost (hits a) bits some 0 e → Misses a e
miss a e h = elim (Bool-cases (contains e.prefix a)) [
  | inl c ↦ absurd (omega (arith, contains-pos e a c, h c))
  | inr c ↦ c
]

-- `Lookup` finds nothing and no route contains the address, or it finds a route that contains the
-- address, at least as long as every other that does, and the first in the table of that length.
pub lookup-IsLongest :
    (f : Fib) (a : Addr)
    → ((lookup f a ≡ none) × All (Misses a) f.routes)
      ⊎ ((e : FibEntry) × (lookup f a ≡ some e) × IsLongest a f.routes e)
unfolding lookup
lookup-IsLongest f a = elim (scan-Outcome (hits a) bits some none 0 f.routes) [
  | inl (short, r) ↦
      inl (lookup_from-eq a none 0 f.routes ∙ ap (λ p. p.0) r, All-imp f.routes (miss a) short)
  | inr (e, r, best) ↦ inr (e, lookup_from-eq a none 0 f.routes ∙ ap (λ p. p.0) r, best)
]

-- On a sorted table the longest match is the first match.
unfoldable pub first_match : Addr → List FibEntry → Option FibEntry
first_match a [] = none
first_match a (e ∷ es) = if contains e.prefix a then some e else first_match a es

lookup_from_done :
    (a : Addr) (x e : FibEntry) (es : List FibEntry)
    → bits x ≤ bits e
    → All (NotLonger x) es
    → lookup_from a (some e) (bits e) es ≡ some e
unfolding lookup_from
lookup_from_done a x e [] l h = refl
lookup_from_done a x e (y ∷ ys) l (h, hs) = ground (arith, lookup_from_done a x e ys l hs)

lookup_from_first :
    (a : Addr) (es : List FibEntry) → IsSorted es → lookup_from a none 0 es ≡ first_match a es
unfolding lookup_from first_match
lookup_from_first a [] s = refl
lookup_from_first a (e ∷ es) (h, s) =
    ground
      (arith, contains-pos e a, lookup_from_done a e e es (omega arith) h, lookup_from_first a es s)

-- On a valid table, where longer prefixes come first, `Lookup` finds the first match.
pub lookup-first_match : (f : Fib) (a : Addr) → IsValid f → lookup f a ≡ first_match a f.routes
unfolding lookup
lookup-first_match f a v = lookup_from_first a f.routes v.sorted
