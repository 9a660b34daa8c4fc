-- ===== src/Router/Fib/Store/Stale.antt =====
-- What a pointer that `Lookup` returned reads after the table has changed.
use gouter.Base.{
  nat_eq, ℕ, zero, suc, ◌≤◌, ◌<◌, ◌≡◌, refl, sym, ap, subst, ◌∙◌, inl, inr, ◌&&◌, ◌==◌, List, [],
  ◌∷◌, ◌++◌, Option, none, some, arith, Bool-cases, if◌then◌else◌, ltb, leb, length, get_elem?,
  drop, overlay, get_elem?-overlay_front, get_elem?-overlay_back, get_elem?-append_front,
  length-take, take-drop,
}
use gouter.Netip.{Prefix, prefix_eq}
use gouter.Router.Fib.{FibEntry, place, cut, sort}
use gouter.Router.Fib.Sort.{length-sort}
use gouter.Router.Fib.Store.{Store, IsStore, slots, view, read, store_add, store_remove}

abbrev pub next_place : Option ℕ → Option ℕ
next_place none = none
next_place (some i) = some (suc i)

-- The place of the first route of a prefix.
pub position : Prefix → List FibEntry → Option ℕ
position p [] = none
position p (e ∷ es) = if e.prefix == p then some 0 else next_place (position p es)

-- Where the contents of slot `k` come from when the route at a place is removed from `n`: from the
-- next slot, except in front of the place and in the last slot.
abbrev pub slot_after : Option ℕ → ℕ → ℕ → ℕ
slot_after none n k = k
slot_after (some i) n k = if leb i k && ltb (suc k) n then suc k else k

slot_after-next :
    (o : Option ℕ) (n k : ℕ) → slot_after (next_place o) (suc n) (suc k) ≡ suc (slot_after o n k)
slot_after-next none n k = refl
slot_after-next (some i) n k = ground arith

slot_after-zero : (o : Option ℕ) (n : ℕ) → slot_after (next_place o) n 0 ≡ 0
slot_after-zero none n = refl
slot_after-zero (some i) n = ground arith

slot_after-first : (n k : ℕ) → slot_after (some 0) (suc n) k ≡ (if ltb k n then suc k else k)
slot_after-first n k = ground arith

-- The first route leaves: every other moves one slot, and the last slot stays as it was.
overlay-tail :
    (e : FibEntry) (es rest : List FibEntry) (k : ℕ)
    → get_elem? (overlay es (e ∷ (es ++ rest))) k
      ≡ get_elem? (e ∷ (es ++ rest)) (slot_after (some 0) (suc (length es)) k)
overlay-tail e es rest k = elim (Bool-cases (ltb k (length es))) [
  | inl h ↦
      get_elem?-overlay_front es (e ∷ (es ++ rest)) k (ground arith)
      ∙ sym (get_elem?-append_front es rest k (ground arith))
      ∙ ap (get_elem? (e ∷ (es ++ rest)))
          (sym (slot_after-first (length es) k ∙ ap (λ b. if b then suc k else k) h))
  | inr h ↦
      get_elem?-overlay_back es (e ∷ (es ++ rest)) k (ground arith)
      ∙ ap (get_elem? (e ∷ (es ++ rest)))
          (sym (slot_after-first (length es) k ∙ ap (λ b. if b then suc k else k) h))
]

-- The first route stays, in slot 0.
overlay-kept :
    (e : FibEntry) (xs ys : List FibEntry) (o : Option ℕ) (n : ℕ)
    → ((k : ℕ) → get_elem? (overlay xs ys) k ≡ get_elem? ys (slot_after o n k))
    → (k : ℕ)
    → get_elem? (e ∷ overlay xs ys) k ≡ get_elem? (e ∷ ys) (slot_after (next_place o) (suc n) k)
overlay-kept e xs ys o n h zero = sym (ap (get_elem? (e ∷ ys)) (slot_after-zero o (suc n)))
overlay-kept e xs ys o n h (suc k) = h k ∙ sym (ap (get_elem? (e ∷ ys)) (slot_after-next o n k))

overlay-cut :
    (p : Prefix) (es rest : List FibEntry) (k : ℕ)
    → get_elem? (overlay (cut p es) (es ++ rest)) k
      ≡ get_elem? (es ++ rest) (slot_after (position p es) (length es) k)
unfolding cut position
overlay-cut p [] rest k = refl
overlay-cut p (e ∷ es) rest k = elim (Bool-cases (e.prefix == p)) [
  | inl h ↦ rw h (overlay-tail e es rest k)
  | inr h ↦ rw h (
      overlay-kept e (cut p es) (es ++ rest) (position p es) (length es)
        (λ i. overlay-cut p es rest i) k)
]

slots-cut :
    (p : Prefix) (s : Store) (k : ℕ)
    → IsStore s
    → get_elem? (overlay (cut p (view s).routes) (slots s)) k
      ≡ get_elem? (slots s) (slot_after (position p (view s).routes) s.len k)
slots-cut p s k ok =
    let routes = (view s).routes in
    subst
      (λ n.
        get_elem? (overlay (cut p routes) (slots s)) k
        ≡ get_elem? (slots s) (slot_after (position p routes) n k))
      (length-take s.len (slots s) ok)
      (subst
        (λ l.
          get_elem? (overlay (cut p routes) l) k
          ≡ get_elem? l (slot_after (position p routes) (length routes) k))
        (take-drop s.len (slots s)) (overlay-cut p routes (drop s.len (slots s)) k))

length-place : (e : FibEntry) (es : List FibEntry) → length es ≤ length (place e es)
unfolding place
length-place e [] = omega arith
length-place e (x ∷ xs) = ground (arith, length-place e xs)

-- What becomes of a pointer to slot `k`, over a change that is made before it is read. After
-- `Remove` it reads the route that stood in the next slot, unless it points in front of the removed
-- route or at the last slot, or no route has the prefix. After `Add` it reads slot `k` of the new
-- table where the array had room for it, and else what it read before.
pub read-store_changed :
    (spare : ℕ → ℕ) (s : Store) (p : Prefix) (e : FibEntry) (k : ℕ)
    → IsStore s
    → k < s.len
    → (read (store_remove s p) (record { array = s.current; index = k })
        ≡ read s
            (record { array = s.current; index = slot_after (position p (view s).routes) s.len k }))
      × (read (store_add spare s e) (record { array = s.current; index = k }) ≡ (
          if leb (length (place e (view s).routes)) (length (slots s))
          then get_elem? (sort (place e (view s).routes)) k
          else read s (record { array = s.current; index = k })))
unfolding store_remove store_add
read-store_changed spare s p e k ok small =
    let routes = place e (view s).routes in
    (
      ground (arith, slots-cut p s k ok),
      elim (Bool-cases (leb (length routes) (length (slots s)))) [
        | inl fits ↦ rw fits (
            ground (
              arith,
              get_elem?-overlay_front (sort routes) (slots s) k (
                  omega (
                    arith,
                    length-sort routes,
                    length-place e (view s).routes,
                    length-take s.len (slots s) ok,
                  )),
            ))
        | inr full ↦ rw full (ground arith)
      ],
    )
