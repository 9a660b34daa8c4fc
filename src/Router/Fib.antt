-- ===== src/Router/Fib.antt =====
-- internal/router/fib.go: the forwarding table. The locks make each operation one step.
pub mod Sort
pub mod Longest
pub mod Table
pub mod Order
pub mod Extensional
pub mod Chosen
pub mod Store
use gouter.Base.{
  ℕ, zero, suc, ◌+◌, Bool, ◌&&◌, List, [], ◌∷◌, Option, none, some, String, ltb, if◌then◌else◌,
  length, ◌==◌,
}
use gouter.Netip.{Addr, Prefix, prefix_eq, contains}

pub data FibAction : Type 0 where
  action_forward action_push action_local : FibAction

pub record FibEntry : Type 0 where
  pub prefix : Prefix
  pub next_hop : Addr
  pub transport : String
  pub action : FibAction
  pub out_labels : List ℕ

pub record Fib : Type 0 where
  pub routes : List FibEntry

-- The length of an entry's prefix, plus one as `netip.Prefix` keeps it: -1 is 0 here.
abbrev pub bits : FibEntry → ℕ
bits e = e.prefix.bits_plus_one

unfoldable pub new_fib : Fib
new_fib = record { routes = [] }

-- The inner loop of `sort` at one `i`: `x` stands in `routes[i]` and the list is `routes[i+1:]`.
-- Each longer entry that the loop meets changes places with what stands in `routes[i]`.
unfoldable pub pass : FibEntry → List FibEntry → FibEntry × List FibEntry
pass x [] = (x, [])
pass x (z ∷ zs) =
    let swaps = ltb (bits x) (bits z) in
    let (y, ys) = pass (if swaps then z else x) zs in (y, (if swaps then x else z) ∷ ys)

-- The outer loop on `routes[i:]`, with as many rounds as there are entries.
unfoldable pub sort_from : ℕ → List FibEntry → List FibEntry
sort_from zero xs = xs
sort_from (suc n) [] = []
sort_from (suc n) (x ∷ xs) = (pass x xs).0 ∷ sort_from n (pass x xs).1

unfoldable pub sort : List FibEntry → List FibEntry
sort xs = sort_from (length xs) xs

-- The loop of `Add`: the entry in the place of the first of its prefix, or at the end.
unfoldable pub place : FibEntry → List FibEntry → List FibEntry
place entry [] = entry ∷ []
place entry (e ∷ es) = if e.prefix == entry.prefix then entry ∷ es else e ∷ place entry es

unfoldable pub add : Fib → FibEntry → Fib
add f entry = record { routes = sort (place entry f.routes) }

-- The loop of `Remove`: without the first entry of the prefix.
unfoldable pub cut : Prefix → List FibEntry → List FibEntry
cut p [] = []
cut p (e ∷ es) = if e.prefix == p then es else e ∷ cut p es

unfoldable pub remove : Fib → Prefix → Fib
remove f p = record { routes = cut p f.routes }

unfoldable pub find_exact : Prefix → List FibEntry → Option FibEntry
find_exact p [] = none
find_exact p (e ∷ es) = if e.prefix == p then some e else find_exact p es

unfoldable pub has_exact : Fib → Prefix → Option FibEntry
has_exact f p = find_exact p f.routes

-- The loop of `Lookup`, with the best entry so far and its length plus one.
unfoldable pub lookup_from : Addr → Option FibEntry → ℕ → List FibEntry → Option FibEntry
lookup_from a best best_len [] = best
lookup_from a best best_len (e ∷ es) =
    let better = contains e.prefix a && ltb best_len (bits e) in
    lookup_from a (if better then some e else best) (if better then bits e else best_len) es

unfoldable pub lookup : Fib → Addr → Option FibEntry
lookup f a = lookup_from a none 0 f.routes

unfoldable pub list : Fib → List FibEntry
list f = f.routes
