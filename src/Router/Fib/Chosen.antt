-- ===== src/Router/Fib/Chosen.antt =====
-- What `Lookup` finds, told by the table as a map from prefixes.
use gouter.Base.{
  ◌≡◌, ◌≢◌, ◌<◌, ◌≤◌, sym, ap, subst, ◌∙◌, inl, inr, true, false, List, [], ◌∷◌, Option, none, some,
  arith, if◌then◌else◌, Bool-cases, Option-cases, All, ◌==◌, beq→eq, beq→ne, beq_self,
}
use gouter.Netip.{Addr, Prefix, prefix_eq, contains}
use gouter.Router.Fib.{FibEntry, Fib, bits, find_exact, has_exact, lookup}
use gouter.Router.Fib.Sort.{IsSorted}
use gouter.Router.Fib.Table.{IsValid}
use gouter.Router.Fib.Longest.{first_match, lookup-first_match}

-- The entry for an address in a map from prefixes: none, where no prefix of the map contains the
-- address, or that of the one longest prefix that does.
unfoldable pub IsChosen : (Prefix → Option FibEntry) → Addr → Option FibEntry → Type 0
IsChosen m a none = (q : Prefix) (e : FibEntry) → m q ≡ some e → contains q a ≡ false
IsChosen m a (some e) =
    (m e.prefix ≡ some e)
    × (contains e.prefix a ≡ true)
    × ((q : Prefix) (e' : FibEntry)
        → m q ≡ some e'
        → contains q a ≡ true
        → q ≢ e.prefix
        → q.bits_plus_one < bits e)

-- The choice is that of the map alone.
pub IsChosen-same :
    (m m' : Prefix → Option FibEntry) (a : Addr) (r : Option FibEntry)
    → ((q : Prefix) → m q ≡ m' q)
    → IsChosen m a r
    → IsChosen m' a r
unfolding IsChosen
IsChosen-same m m' a none same h = λ q e found. h q e (same q ∙ found)
IsChosen-same m m' a (some e) same (own, holds, longest) =
    (sym (same e.prefix) ∙ own, holds, λ q e' found. longest q e' (same q ∙ found))

find_exact-All :
    (P : FibEntry → Type 0) (q : Prefix) (xs : List FibEntry) (e : FibEntry)
    → All P xs
    → find_exact q xs ≡ some e
    → P e × (e.prefix ≡ q)
unfolding find_exact
find_exact-All P q [] e h found = absurd (cc found)
find_exact-All P q (x ∷ xs) e (h, hs) found = elim (Bool-cases (x.prefix == q)) [
  | inl t ↦
      let same : x ≡ e = ground (arith, found, t) in
      (subst P same h, ap (λ y. y.prefix) (sym same) ∙ beq→eq x.prefix q t)
  | inr t ↦ find_exact-All P q xs e hs (ground (arith, found, t))
]

-- A prefix that contains an address is not one that does not.
apart : (p q : Prefix) (a : Addr) → contains p a ≡ false → contains q a ≡ true → (p == q) ≡ false
apart p q a misses holds = elim (Bool-cases (p == q)) [
  | inl t ↦ absurd (cc (holds, misses, ap (λ z. contains z a) (beq→eq p q t)))
  | inr n ↦ n
]

-- The first match is the entry of its own prefix.
first_match-find_exact :
    (a : Addr) (xs : List FibEntry) (x : FibEntry)
    → first_match a xs ≡ some x
    → (contains x.prefix a ≡ true) × (find_exact x.prefix xs ≡ some x)
unfolding find_exact first_match
first_match-find_exact a [] x e = absurd (cc e)
first_match-find_exact a (y ∷ ys) x e = elim (Bool-cases (contains y.prefix a)) [
  | inl t ↦
      let same : y ≡ x = ground (arith, e, t) in
      subst (λ z. (contains z.prefix a ≡ true) × (find_exact z.prefix (y ∷ ys) ≡ some z)) same
        (t, ap (λ b. if b then some y else find_exact y.prefix ys) (beq_self y.prefix))
  | inr n ↦
      let (holds, own) = first_match-find_exact a ys x (ground (arith, e, n)) in
      (
        holds,
        ap (λ b. if b then some y else find_exact x.prefix ys) (apart y.prefix x.prefix a n holds)
            ∙ own,
      )
]

-- On a sorted list there is a first match where a prefix that contains the address finds an entry,
-- and it is no shorter than that.
first_match-longest :
    (a : Addr) (q : Prefix) (xs : List FibEntry) (e : FibEntry)
    → IsSorted xs
    → find_exact q xs ≡ some e
    → contains q a ≡ true
    → (x : FibEntry) × (first_match a xs ≡ some x) × (bits e ≤ bits x)
unfolding find_exact first_match
first_match-longest a q [] e s found c = absurd (cc found)
first_match-longest a q (y ∷ ys) e (h, s) found c = elim (Bool-cases (contains y.prefix a)) [
  | inl t ↦ (
    y,
    ap (λ b. if b then some y else first_match a ys) t,
    (find_exact-All (λ b. bits b ≤ bits y) q (y ∷ ys) e (omega arith, h) found).0,
  )
  | inr n ↦
      let (x, first, long) =
        first_match-longest a q ys e s
          (ap (λ b. if b then some y else find_exact q ys) (sym (apart y.prefix q a n c)) ∙ found)
          c in
      (x, ap (λ b. if b then some y else first_match a ys) n ∙ first, long)
]

-- On a valid table `Lookup` finds what is chosen in the map that the table is.
pub lookup-IsChosen :
    (f : Fib) (a : Addr) (r : Option FibEntry)
    → IsValid f
    → IsChosen (has_exact f) a r
    → lookup f a ≡ r
unfolding IsChosen has_exact
lookup-IsChosen f a none v misses = elim (Option-cases (first_match a f.routes)) [
  | inl e ↦ lookup-first_match f a v ∙ e
  | inr (x, e) ↦
      let (holds, own) = first_match-find_exact a f.routes x e in
      absurd (cc (holds, misses x.prefix x own))
]
lookup-IsChosen f a (some e) v (own, holds, longest) =
    let (x, first, long) = first_match-longest a e.prefix f.routes e v.sorted own holds in
    let (x_holds, x_own) = first_match-find_exact a f.routes x first in
    lookup-first_match f a v ∙ first ∙ (elim (Bool-cases (x.prefix == e.prefix)) [
      | inl t ↦ sym x_own ∙ ap (λ p. find_exact p f.routes) (beq→eq x.prefix e.prefix t) ∙ own
      | inr n ↦
          absurd
            (omega (arith, long, longest x.prefix x x_own x_holds (beq→ne x.prefix e.prefix n)))
    ])
