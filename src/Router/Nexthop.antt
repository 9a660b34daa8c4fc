-- ===== src/Router/Nexthop.antt =====
-- internal/router/nexthop.go: the transport by which a next hop is reached.
pub mod Resolve
use gouter.Base.{
  ℕ, Bool, true, false, ◌&&◌, List, [], ◌∷◌, Option, none, some, String, string_eq, ltb,
  if◌then◌else◌,
}
use gouter.Base.Dict.{insert, delete}
use gouter.Netip.{Addr, invalid, Prefix, contains}
use gouter.Router.Fib.{Fib, FibEntry, lookup}

pub record NexthopResolver : Type 0 where
  pub fib : Fib
  pub transport_ips : List (String × List Prefix)

unfoldable pub new_nexthop_resolver : Fib → NexthopResolver
new_nexthop_resolver fib = record { fib = fib; transport_ips = [] }

unfoldable pub add_transport : NexthopResolver → String → List Prefix → NexthopResolver
add_transport r name prefixes = record r { transport_ips = insert name prefixes r.transport_ips }

unfoldable pub remove_transport : NexthopResolver → String → NexthopResolver
remove_transport r name = record r { transport_ips = delete name r.transport_ips }

-- The inner loop of `Resolve`, with the best name so far and its length plus one.
pub resolve_prefixes : Addr → String → String × ℕ → List Prefix → String × ℕ
resolve_prefixes nexthop name best [] = best
resolve_prefixes nexthop name best (p ∷ ps) =
    let better = contains p nexthop && ltb best.1 p.bits_plus_one in
    resolve_prefixes nexthop name (if better then (name, p.bits_plus_one) else best) ps

-- The outer loop of `Resolve`.
pub resolve_transports : Addr → String × ℕ → List (String × List Prefix) → String × ℕ
resolve_transports nexthop best [] = best
resolve_transports nexthop best ((name, ps) ∷ rest) =
    resolve_transports nexthop (resolve_prefixes nexthop name best ps) rest

unfoldable pub resolve : NexthopResolver → Addr → String × Bool
resolve r nexthop =
    let best = resolve_transports nexthop ("", 0) r.transport_ips in
    if ltb 0 best.1
    then (best.0, true)
    else elim (lookup r.fib nexthop) [ none ↦ ("", false) | some entry ↦ (entry.transport, true) ]

-- The loops of `ResolveTransport`: the first transport with a prefix that contains the address.
pub any_contains : Addr → List Prefix → Bool
any_contains nexthop [] = false
any_contains nexthop (p ∷ ps) = if contains p nexthop then true else any_contains nexthop ps

pub first_transport : Addr → List (String × List Prefix) → Option String
first_transport nexthop [] = none
first_transport nexthop ((name, ps) ∷ rest) =
    if any_contains nexthop ps then some name else first_transport nexthop rest

pub resolve_transport : NexthopResolver → Addr → String × Addr × Bool
resolve_transport r nexthop = elim (first_transport nexthop r.transport_ips) [
  | some name ↦ (name, nexthop, true)
  | none ↦ elim (lookup r.fib nexthop) [
    | none ↦ ("", invalid, false)
    | some entry ↦ (entry.transport, entry.next_hop, true)
  ]
]
