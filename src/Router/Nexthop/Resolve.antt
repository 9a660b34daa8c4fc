-- ===== src/Router/Nexthop/Resolve.antt =====
-- `Resolve` picks the transport with the longest prefix, and only then asks the table.
use gouter.Base.{
  ℕ, ◌<◌, ◌≡◌, ◌⊎◌, inl, inr, refl, sym, ◌∙◌, Bool, true, false, ◌&&◌, List, [], ◌∷◌, ◌++◌, map,
  none, some, String, arith, ltb, lt→ltb, if◌then◌else◌, Bool-cases, All, All-imp,
}
use gouter.Netip.{Addr, Prefix, contains}
use gouter.Router.Scan
use gouter.Router.Scan.{scan, scan-Outcome}
use gouter.Router.Fib.{Fib, lookup}
use gouter.Router.Nexthop.{NexthopResolver, resolve_prefixes, resolve_transports, resolve}

-- Every prefix with the name of its transport, in the order of the loops.
abbrev pub flatten : List (String × List Prefix) → List (String × Prefix)
flatten [] = []
flatten ((name, ps) ∷ rest) = map (λ p. (name, p)) ps ++ flatten rest

abbrev pub hits : Addr → String × Prefix → Bool
hits nexthop x = contains x.1 nexthop

abbrev pub bits : String × Prefix → ℕ
bits x = x.1.bits_plus_one

abbrev scan_all : Addr → String × ℕ → List (String × Prefix) → String × ℕ
scan_all nexthop best xs = scan (hits nexthop) bits (λ x. x.0) best.0 best.1 xs

scan_choice :
    (nexthop : Addr) (t : Bool) (name : String) (n : ℕ) (best : String × ℕ)
    (xs : List (String × Prefix))
    → scan (hits nexthop) bits (λ x. x.0) (if t then name else best.0) (if t then n else best.1) xs
      ≡ scan_all nexthop (if t then (name, n) else best) xs
scan_choice nexthop true name n best xs = refl
scan_choice nexthop false name n best xs = refl

resolve_prefixes-eq :
    (nexthop : Addr) (name : String) (best : String × ℕ) (ps : List Prefix)
    (xs : List (String × Prefix))
    → scan_all nexthop best (map (λ p. (name, p)) ps ++ xs)
      ≡ scan_all nexthop (resolve_prefixes nexthop name best ps) xs
unfolding resolve_prefixes scan
resolve_prefixes-eq nexthop name best [] xs = refl
resolve_prefixes-eq nexthop name best (p ∷ ps) xs =
    let better = contains p nexthop && ltb best.1 p.bits_plus_one in
    scan_choice nexthop better name p.bits_plus_one best (map (λ q. (name, q)) ps ++ xs)
    ∙ resolve_prefixes-eq nexthop name (if better then (name, p.bits_plus_one) else best) ps xs

resolve_transports-eq :
    (nexthop : Addr) (best : String × ℕ) (ts : List (String × List Prefix))
    → resolve_transports nexthop best ts ≡ scan_all nexthop best (flatten ts)
unfolding resolve_transports
resolve_transports-eq nexthop best [] = unfold scan in refl
resolve_transports-eq nexthop best ((name, ps) ∷ rest) =
    resolve_transports-eq nexthop (resolve_prefixes nexthop name best ps) rest
    ∙ sym (resolve_prefixes-eq nexthop name best ps (flatten rest))

abbrev pub Misses : Addr → String × Prefix → Type 0
Misses nexthop x = contains x.1 nexthop ≡ false

-- What the forwarding table says of a next hop.
abbrev pub by_table : Fib → Addr → String × Bool
by_table fib nexthop = elim (lookup fib nexthop) [
  | none ↦ ("", false)
  | some entry ↦ (entry.transport, true)
]

abbrev pub IsClosest : NexthopResolver → Addr → String × Prefix → Type 0
IsClosest r nexthop x = Scan.IsBest (hits nexthop) bits (λ y. y.0) 0 (flatten r.transport_ips) x

contains-pos : (p : Prefix) (a : Addr) → contains p a ≡ true → 0 < p.bits_plus_one
unfolding contains
contains-pos p a h = ground arith

miss :
    (nexthop : Addr) (x : String × Prefix)
    → Scan.AtMost (hits nexthop) bits (λ y. y.0) 0 x
    → Misses nexthop x
miss nexthop x h = elim (Bool-cases (contains x.1 nexthop)) [
  | inl c ↦ absurd (omega (arith, contains-pos x.1 nexthop c, h c))
  | inr c ↦ c
]

resolve_found :
    (r : NexthopResolver) (nexthop : Addr) (best : String × ℕ)
    → resolve_transports nexthop ("", 0) r.transport_ips ≡ best
    → 0 < best.1
    → resolve r nexthop ≡ (best.0, true)
unfolding resolve
resolve_found r nexthop best e h = rw (e, lt→ltb 0 best.1 h, resolve)

resolve_not_found :
    (r : NexthopResolver) (nexthop : Addr)
    → resolve_transports nexthop ("", 0) r.transport_ips ≡ ("", 0)
    → resolve r nexthop ≡ by_table r.fib nexthop
unfolding resolve
resolve_not_found r nexthop e = rw (e, resolve)

-- In whatever order the transports are visited, `Resolve` returns the first transport with a prefix
-- that contains the next hop and is at least as long as every other that does. Only if no prefix
-- of a transport contains it does the forwarding table decide, and its misses are not found.
pub resolve-IsClosest :
    (r : NexthopResolver) (nexthop : Addr)
    → ((x : String × Prefix) × (resolve r nexthop ≡ (x.0, true)) × IsClosest r nexthop x)
      ⊎ (All (Misses nexthop) (flatten r.transport_ips)
          × (resolve r nexthop ≡ by_table r.fib nexthop))
resolve-IsClosest r nexthop =
    elim (scan-Outcome (hits nexthop) bits (λ x. x.0) "" 0 (flatten r.transport_ips)) [
      | inl (short, e) ↦ inr (
        All-imp (flatten r.transport_ips) (miss nexthop) short,
        resolve_not_found r nexthop (resolve_transports-eq nexthop ("", 0) r.transport_ips ∙ e),
      )
      | inr (x, e, best) ↦ inl (
        x,
        resolve_found r nexthop _ (resolve_transports-eq nexthop ("", 0) r.transport_ips ∙ e)
            best.longer,
        best,
      )
    ]
