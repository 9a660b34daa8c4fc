-- ===== src/Router/Fib/Store/Refines.antt =====
-- The slice in its array does what the table does.
use gouter.Base.{
  nat_eq, ℕ, suc, ◌+◌, ◌≤◌, ◌<◌, ◌≡◌, refl, sym, ap, ◌∙◌, inl, inr, ◌&&◌, List, [], ◌∷◌, Option,
  none, some, arith, Bool-cases, ltb, leb, length, get_elem?, length-overlay, take-overlay,
  length-append, replicate, take-append_length, get_elem?-take, length-take,
}
use gouter.Netip.{Addr, Prefix, prefix_eq, contains}
use gouter.Router.Fib.{
  Fib, new_fib, FibEntry, bits, place, cut, sort, add, remove, lookup, lookup_from,
}
use gouter.Router.Fib.Sort.{length-sort}
use gouter.Router.Fib.Store.{
  Store, Pointer, IsStore, slots, view, read, write_over, move, store_add, store_remove, slot_from,
  store_lookup, pointer_at, zero_entry, new_store,
}

pub length-cut : (p : Prefix) (es : List FibEntry) → length (cut p es) ≤ length es
unfolding cut
length-cut p [] = omega arith
length-cut p (e ∷ es) = ground (arith, length-cut p es)

-- What is left in the array, where `routes` fits.
write_over-view :
    (s : Store) (routes : List FibEntry)
    → length routes ≤ length (slots s)
    → ((view (write_over s routes)).routes ≡ routes) × IsStore (write_over s routes)
write_over-view s routes h =
    ground (arith, take-overlay routes (slots s), length-overlay routes (slots s) h)

move-view :
    (n : ℕ) (s : Store) (routes : List FibEntry)
    → ((view (move n s routes)).routes ≡ routes) × IsStore (move n s routes)
move-view n s routes = ground (
  arith,
  take-append_length routes (replicate n zero_entry) (length routes) refl,
  length-append routes (replicate n zero_entry),
)

-- What a pointer to the best slot so far reads is the best entry so far.
read_slot : List FibEntry → Option ℕ → Option FibEntry
read_slot all none = none
read_slot all (some i) = get_elem? all i

slot_from-eq :
    (a : Addr) (all : List FibEntry) (best : Option ℕ) (len i : ℕ) (es : List FibEntry)
    → ((k : ℕ) → k < length es → get_elem? all (i + k) ≡ get_elem? es k)
    → read_slot all (slot_from a best len i es) ≡ lookup_from a (read_slot all best) len es
unfolding slot_from lookup_from read_slot
slot_from-eq a all best len i [] at = refl
slot_from-eq a all best len i (e ∷ es) at =
    let rest : (k : ℕ) → k < length es → get_elem? all (suc i + k) ≡ get_elem? es k =
      λ k l. ap (get_elem? all) (omega arith) ∙ at (suc k) (omega arith) in
    let here : get_elem? all i ≡ some e = ap (get_elem? all) (omega arith) ∙ at 0 (omega arith) in
    elim (Bool-cases (contains e.prefix a && ltb len (bits e))) [
      | inl better ↦ rw better (
          slot_from-eq a all (some i) (bits e) (suc i) es rest
          ∙ ap (λ b. lookup_from a b (bits e) es) here)
      | inr not_better ↦ rw not_better (slot_from-eq a all best len (suc i) es rest)
    ]

-- The entry under a pointer that may be nil.
abbrev pub entry_at : Store → Option Pointer → Option FibEntry
entry_at s none = none
entry_at s (some p) = read s p

entry_at-pointer_at :
    (s : Store) (i : Option ℕ) → entry_at s (pointer_at s i) ≡ read_slot (slots s) i
unfolding read_slot
entry_at-pointer_at s none = refl
entry_at-pointer_at s (some i) = refl

store_lookup-eq : (s : Store) (a : Addr) → entry_at s (store_lookup s a) ≡ lookup (view s) a
unfolding store_lookup lookup read_slot
store_lookup-eq s a =
    let routes = (view s).routes in
    entry_at-pointer_at s (slot_from a none 0 0 routes)
    ∙ slot_from-eq a (slots s) none 0 0 routes
        (λ k l. ap (get_elem? (slots s)) (omega arith) ∙ sym (get_elem?-take s.len (slots s) k l))

store_add-eq :
    (spare : ℕ → ℕ) (s : Store) (entry : FibEntry)
    → (view (store_add spare s entry) ≡ add (view s) entry) × IsStore (store_add spare s entry)
unfolding store_add add
store_add-eq spare s entry =
    let routes = place entry (view s).routes in
    elim (Bool-cases (leb (length routes) (length (slots s)))) [
      | inl fits ↦
          let (same, ok) = write_over-view s (sort routes) (ground (arith, length-sort routes)) in
          rw fits (ap (λ l. record { routes = l }) same, ok)
      | inr full ↦
          let (same, ok) = move-view (spare (length routes)) s (sort routes) in
          rw full (ap (λ l. record { routes = l }) same, ok)
    ]

store_remove-eq :
    (s : Store) (p : Prefix)
    → IsStore s
    → (view (store_remove s p) ≡ remove (view s) p) × IsStore (store_remove s p)
unfolding store_remove remove
store_remove-eq s p ok =
    let routes = (view s).routes in
    let (same, ok') =
      write_over-view s (cut p routes)
        (omega (arith, length-cut p routes, length-take s.len (slots s) ok)) in
    (ap (λ l. record { routes = l }) same, ok')

-- A change to the table.
pub data Change : Type 0 where
  adds : FibEntry → Change
  removes : Prefix → Change

-- The changes in order, the last at the head, on the slice and on the table.
pub stored : (ℕ → ℕ) → List Change → Store
stored spare [] = new_store
stored spare (adds e ∷ cs) = store_add spare (stored spare cs) e
stored spare (removes p ∷ cs) = store_remove (stored spare cs) p

pub table : List Change → Fib
table [] = new_fib
table (adds e ∷ cs) = add (table cs) e
table (removes p ∷ cs) = remove (table cs) p

stored-eq :
    (spare : ℕ → ℕ) (cs : List Change)
    → (view (stored spare cs) ≡ table cs) × IsStore (stored spare cs)
unfolding stored table new_store new_fib
stored-eq spare [] = (refl, omega arith)
stored-eq spare (adds e ∷ cs) =
    let (same, ok) = store_add-eq spare (stored spare cs) e in
    (same ∙ ap (λ f. add f e) (stored-eq spare cs).0, ok)
stored-eq spare (removes p ∷ cs) =
    let (same, ok) = store_remove-eq (stored spare cs) p (stored-eq spare cs).1 in
    (same ∙ ap (λ f. remove f p) (stored-eq spare cs).0, ok)

-- However much room each new array has: after every sequence of additions and removals the slice is
-- the table of the same changes, it is within its array, and the pointer that `Lookup` returns reads
-- the entry that a lookup in that table finds.
pub stored-Refines :
    (spare : ℕ → ℕ) (cs : List Change) (a : Addr)
    → (view (stored spare cs) ≡ table cs)
      × IsStore (stored spare cs)
      × (entry_at (stored spare cs) (store_lookup (stored spare cs) a) ≡ lookup (table cs) a)
stored-Refines spare cs a =
    let (same, ok) = stored-eq spare cs in
    (same, ok, store_lookup-eq (stored spare cs) a ∙ ap (λ f. lookup f a) same)
