-- ===== src/Tests/Tables.antt =====
-- The forwarding table and the next hop resolver at small inputs.
use gouter.Base.{
  true, ◌≡◌, refl, [], ◌∷◌, none, some, arith, All, String, ◌⊎◌, if◌then◌else◌, ◌==◌, Bool-cases,
  inl, inr, subst, beq→eq, sym, ap, ℕ, ◌≢◌,
}
use gouter.Netip.{Addr, v4, invalid, Prefix, prefix_eq, contains}
use gouter.Router.Fib.{
  FibEntry, Fib, action_forward, add, remove, lookup, lookup_from, has_exact, find_exact,
}
use gouter.Router.Fib.Table
use gouter.Router.Fib.Table.{IsValid}
use gouter.Router.Fib.Longest
use gouter.Router.Fib.Longest.{IsLongest, Misses, first_match}
use gouter.Router.Fib.Order.{IsCanonical}
use gouter.Router.Nexthop.{NexthopResolver, resolve}
use gouter.Router.Nexthop.Resolve
use gouter.Router.Nexthop.Resolve.{IsClosest, flatten, by_table}

-- 10.0.0.0/8 and 10.1.0.0/16, and an address in both.
abbrev pub wide : Prefix
wide = record { addr = v4 0x0a000000; bits_plus_one = 9 }

abbrev pub narrow : Prefix
narrow = record { addr = v4 0x0a010000; bits_plus_one = 17 }

abbrev pub host : Addr
host = v4 0x0a010203

abbrev pub route_to : Prefix → String → FibEntry
route_to p name = record {
  prefix = p;
  next_hop = invalid;
  transport = name;
  action = action_forward;
  out_labels = [];
}

abbrev pub fib : Fib
fib = record { routes = route_to narrow "wg1" ∷ route_to wide "wg0" ∷ [] }

pub fib-IsValid : IsValid fib
fib-IsValid = record { sorted = omega arith; unique = ((λ e. cc e, tt), (tt, tt)) }

lookup-narrow : lookup fib host ≡ some (route_to narrow "wg1")
unfolding lookup lookup_from contains
lookup-narrow = refl

lookup-IsLongest_example :
    ((lookup fib host ≡ none) × All (Misses host) fib.routes)
    ⊎ ((e : FibEntry) × (lookup fib host ≡ some e) × IsLongest host fib.routes e)
lookup-IsLongest_example = Longest.lookup-IsLongest fib host

add-remove-IsValid_example : IsValid (add fib (route_to wide "wg2")) × IsValid (remove fib narrow)
add-remove-IsValid_example = Table.add-remove-IsValid fib (route_to wide "wg2") narrow fib-IsValid

has_exact-add-remove_example :
    (has_exact (add fib (route_to wide "wg2")) wide
      ≡ (if wide == wide then some (route_to wide "wg2") else has_exact fib wide))
    × (has_exact (remove fib narrow) wide ≡ (if narrow == wide then none else has_exact fib wide))
has_exact-add-remove_example =
    Table.has_exact-add-remove fib (route_to wide "wg2") narrow wide fib-IsValid

-- 10.2.0.0/16, and the tables of two routes of one length in either order.
abbrev pub other : Prefix
other = record { addr = v4 0x0a020000; bits_plus_one = 17 }

abbrev pub level : Fib
level = record { routes = route_to narrow "wg1" ∷ route_to other "wg2" ∷ [] }

abbrev pub turned : Fib
turned = record { routes = route_to other "wg2" ∷ route_to narrow "wg1" ∷ [] }

abbrev number : Addr → ℕ
number (v4 a) = a
number _ = 0

narrow-other : v4 0x0a010000 ≢ v4 0x0a020000
narrow-other e = omega (arith, ap number e)

narrow-other_prefix : narrow ≢ other
narrow-other_prefix e = narrow-other (ap (λ p. p.addr) e)

pub level-IsValid : IsValid level
level-IsValid = record { sorted = omega arith; unique = ((narrow-other_prefix, tt), (tt, tt)) }

pub turned-IsValid : IsValid turned
turned-IsValid = record {
  sorted = omega arith;
  unique = ((λ e. narrow-other_prefix (sym e), tt), (tt, tt));
}

pub level-IsCanonical : IsCanonical level.routes
level-IsCanonical = record {
  no_zones = (tt, (tt, tt));
  networks = ((λ e. narrow-other, tt), (tt, tt));
}

pub level-turned : (q : Prefix) → has_exact level q ≡ has_exact turned q
unfolding has_exact find_exact
level-turned q = elim (Bool-cases (narrow == q)) [
  | inl t ↦ subst (λ p. has_exact level p ≡ has_exact turned p) (beq→eq narrow q t) refl
  | inr n ↦ ground (arith, n)
]

abbrev pub resolver : NexthopResolver
resolver = record {
  fib = fib;
  transport_ips = ("wg0", wide ∷ []) ∷ ("wg1", narrow ∷ wide ∷ []) ∷ [];
}

resolve-IsClosest_example :
    ((x : String × Prefix) × (resolve resolver host ≡ (x.0, true)) × IsClosest resolver host x)
    ⊎ (All (Resolve.Misses host) (flatten resolver.transport_ips)
        × (resolve resolver host ≡ by_table fib host))
resolve-IsClosest_example = Resolve.resolve-IsClosest resolver host
