-- ===== src/Router/Fib/Order.antt =====
-- The order of the routes, and so the order in which they were added, does not matter to `Lookup`
-- where no network stands twice.
use mathlib.Core.List.{Permᴰ}
use gouter.Base.{
  ℕ, ◌≡◌, ◌≢◌, refl, sym, ap, ap₂, ◌∙◌, true, List, [], ◌∷◌, Option, none, arith, All, AllPairs,
}
use gouter.Base.Perms.{AllPairs-perm}
use gouter.Netip.{Addr, contains, masked_addr}
use gouter.Netip.Contains.{HasNoZone, contains_same_network}
use gouter.Router.Fib.{FibEntry, Fib, bits, lookup_from, lookup}

-- Two routes that contain the address differ in length.
abbrev pub NoTie : Addr → FibEntry → FibEntry → Type 0
NoTie a x y = contains x.prefix a ≡ true → contains y.prefix a ≡ true → bits x ≢ bits y

lookup_from_swap :
    (a : Addr) (best : Option FibEntry) (len : ℕ) (x y : FibEntry) (zs : List FibEntry)
    → NoTie a x y
    → lookup_from a best len (x ∷ y ∷ zs) ≡ lookup_from a best len (y ∷ x ∷ zs)
unfolding lookup_from
lookup_from_swap a best len x y zs h = ground arith

lookup_from-cons :
    (a : Addr) (best : Option FibEntry) (len : ℕ) (x : FibEntry) (xs ys : List FibEntry)
    → ((b : Option FibEntry) (n : ℕ) → lookup_from a b n xs ≡ lookup_from a b n ys)
    → lookup_from a best len (x ∷ xs) ≡ lookup_from a best len (x ∷ ys)
unfolding lookup_from
lookup_from-cons a best len x xs ys h = h _ _

lookup_from-perm :
    (a : Addr) (best : Option FibEntry) (len : ℕ) {xs ys : List FibEntry}
    → Permᴰ xs ys
    → AllPairs (NoTie a) xs
    → lookup_from a best len xs ≡ lookup_from a best len ys
lookup_from-perm a best len Permᴰ.nil u = refl
lookup_from-perm a best len (Permᴰ.cons {a = x} {l₂ = ys} e p) (h, u) =
    lookup_from-cons a best len x _ ys (λ b n. lookup_from-perm a b n p u)
    ∙ ap (λ c. lookup_from a best len (c ∷ ys)) e
lookup_from-perm a best len (Permᴰ.swap {a = x} {b = y} {l} e f) ((h, hs), u) =
    lookup_from_swap a best len x y l h ∙ ap₂ (λ c d. lookup_from a best len (c ∷ d ∷ l)) f e
lookup_from-perm a best len (Permᴰ.trans p q) u =
    lookup_from-perm a best len p u
    ∙ lookup_from-perm a best len q (AllPairs-perm (NoTie a) (λ x y h c d e. h d c (sym e)) p u)

-- No two routes are of one length and one network.
abbrev pub OtherNetwork : FibEntry → FibEntry → Type 0
OtherNetwork x y = bits x ≡ bits y → masked_addr x.prefix ≢ masked_addr y.prefix

abbrev pub NoZone : FibEntry → Type 0
NoZone e = HasNoZone e.prefix.addr

pub record IsCanonical (xs : List FibEntry) : Type 0 where
  pub no_zones : All NoZone xs
  pub networks : AllPairs OtherNetwork xs

NoTie-All :
    (a : Addr) (x : FibEntry) (xs : List FibEntry)
    → NoZone x
    → All NoZone xs
    → All (OtherNetwork x) xs
    → All (NoTie a x) xs
NoTie-All a x [] z zs h = tt
NoTie-All a x (y ∷ ys) z (w, ws) (h, hs) =
    (λ c d e. h e (contains_same_network x.prefix y.prefix a z w c d e), NoTie-All a x ys z ws hs)

no_tie : (a : Addr) (xs : List FibEntry) → IsCanonical xs → AllPairs (NoTie a) xs
no_tie a xs c = go xs c.no_zones c.networks
  where
    go : (ys : List FibEntry) → All NoZone ys → AllPairs OtherNetwork ys → AllPairs (NoTie a) ys
    go [] z n = tt
    go (y ∷ ys) (z, zs) (n, ns) = (NoTie-All a y ys z zs n, go ys zs ns)

-- Two tables with the same routes in any order find the same route for every address, if no two
-- routes are of one length and one network.
pub lookup-perm :
    (f g : Fib) (a : Addr)
    → IsCanonical f.routes
    → Permᴰ f.routes g.routes
    → lookup f a ≡ lookup g a
unfolding lookup
lookup-perm f g a c p = lookup_from-perm a none 0 p (no_tie a f.routes c)
