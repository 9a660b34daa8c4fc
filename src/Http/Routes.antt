-- ===== src/Http/Routes.antt =====
-- What the page of the routes shows of the forwarding table.
use gouter.Base.{
  ◌≡◌, refl, subst, inl, inr, List, [], ◌∷◌, Option, none, some, String, arith, if◌then◌else◌,
  Bool-cases, All, ◌==◌, beq→eq, length,
}
use gouter.Netip.{Addr, Prefix, prefix_eq}
use gouter.Router.Fib.{FibEntry, find_exact, has_exact, list}
use gouter.Router.Fib.Table.{IsValid, IsUnique, Apart}
use gouter.Appctx.{AppContext}
use gouter.Http.{Line, fib_routes, route, HostInfo, route_lines, routes_page}

-- The next hops and transports that lines show for a prefix.
pub shown_at : Prefix → List Line → List (Addr × String)
shown_at q [] = []
shown_at q (route p next_hop transport ∷ ls) =
    let rest = shown_at q ls in if p == q then (next_hop, transport) ∷ rest else rest
shown_at q (_ ∷ ls) = shown_at q ls

abbrev pub entry_shown : Option FibEntry → List (Addr × String)
entry_shown none = []
entry_shown (some e) = (e.next_hop, e.transport) ∷ []

shown_at-Apart :
    (x : FibEntry) (xs : List FibEntry) → All (Apart x) xs → shown_at x.prefix (route_lines xs) ≡ []
unfolding shown_at route_lines
shown_at-Apart x [] h = refl
shown_at-Apart x (y ∷ ys) (h, hs) =
    ground (arith, prefix_eq.beq_iff y.prefix x.prefix, h, shown_at-Apart x ys hs)

shown_at-route_lines :
    (q : Prefix) (xs : List FibEntry)
    → IsUnique xs
    → shown_at q (route_lines xs) ≡ entry_shown (find_exact q xs)
unfolding shown_at route_lines find_exact
shown_at-route_lines q [] u = refl
shown_at-route_lines q (x ∷ xs) (h, u) = elim (Bool-cases (x.prefix == q)) [
  | inl t ↦
      let gone =
        subst (λ p. shown_at p (route_lines xs) ≡ []) (beq→eq x.prefix q t)
          (shown_at-Apart x xs h) in
      ground (arith, t, gone)
  | inr n ↦ ground (arith, n, shown_at-route_lines q xs u)
]

-- The page of the routes counts them, and shows for each prefix the next hop and the transport of its
-- entry once, or nothing where the table has none.
pub routes_page-lists :
    {S : Type 0} (info : HostInfo) (ac : AppContext S)
    → IsValid ac.fib
    → (lines : List Line) × (routes_page info ac ≡ fib_routes (length (list ac.fib)) ∷ lines)
      × ((q : Prefix) → shown_at q lines ≡ entry_shown (has_exact ac.fib q))
unfolding routes_page has_exact list
routes_page-lists info ac v =
    (route_lines (list ac.fib), refl, λ q. shown_at-route_lines q ac.fib.routes v.unique)
