-- ===== src/Netstack/Forward/InTable.antt =====
-- The table of port forwards: which listeners are in it, over an insertion and a deletion.
use gouter.Base.{
  string_eq, nat_eq, ℕ, ◌≡◌, ◌≢◌, refl, sym, ap, subst, ◌∙◌, false, ◌&&◌, ◌||◌, not, List, [], ◌∷◌,
  none, some, String, ◌==◌, arith, All, AllPairs, All-imp, Bool-cases, inl, inr, beq→eq,
}
use gouter.Base.Dict
use gouter.Netstack.Forward.{ActiveFwd, in_table}

-- Entries of the table have names and listeners of their own.
abbrev pub Apart : String × ActiveFwd → String × ActiveFwd → Type 0
Apart a b = (a.0 ≢ b.0) × (a.1.listener ≢ b.1.listener)

pub in_table-insert :
    (k : ℕ) (name : String) (af : ActiveFwd) (l : List (String × ActiveFwd))
    → Dict.lookup name l ≡ none
    → in_table k (Dict.insert name af l) ≡ (k == af.listener || in_table k l)
unfolding in_table Dict.insert Dict.lookup
in_table-insert k name af [] h = ground arith
in_table-insert k name af ((n, b) ∷ l) h = elim (Bool-cases (n == name)) [
  | inl e ↦ absurd (ground (arith, e))
  | inr e ↦ let rest = in_table-insert k name af l (ground (arith, e)) in ground (arith, e, rest)
]

not_in_table :
    (k : ℕ) (l : List (String × ActiveFwd)) → All (λ b. k ≢ b.1.listener) l → in_table k l ≡ false
unfolding in_table
not_in_table k [] h = refl
not_in_table k (b ∷ l) (h, hs) = ground (arith, not_in_table k l hs)

pub in_table-false :
    (k : ℕ) (l : List (String × ActiveFwd)) → in_table k l ≡ false → All (λ b. k ≢ b.1.listener) l
unfolding in_table
in_table-false k [] h = tt
in_table-false k (b ∷ l) h = (ground arith, in_table-false k l (ground arith))

pub All-Apart :
    (name : String) (af : ActiveFwd) (l : List (String × ActiveFwd))
    → All (λ b. b.0 ≢ name) l
    → All (λ b. af.listener ≢ b.1.listener) l
    → All (λ b. Apart b (name, af)) l
All-Apart name af [] h k = tt
All-Apart name af (b ∷ l) (h, hs) (k, ks) = ((h, λ same. k (sym same)), All-Apart name af l hs ks)

All-delete {ℓ} :
    (P : String × ActiveFwd → Type ℓ) (name : String) (l : List (String × ActiveFwd))
    → All P l
    → All P (Dict.delete name l)
unfolding Dict.delete
All-delete P name [] h = tt
All-delete P name ((n, b) ∷ l) (h, hs) = elim (Bool-cases (n == name)) [
  | inl e ↦ rw (e, Dict.delete) (All-delete P name l hs)
  | inr e ↦ rw (e, Dict.delete) (h, All-delete P name l hs)
]

pub AllPairs-delete :
    (name : String) (l : List (String × ActiveFwd))
    → AllPairs Apart l
    → AllPairs Apart (Dict.delete name l)
unfolding Dict.delete
AllPairs-delete name [] u = tt
AllPairs-delete name ((n, b) ∷ l) (v, u) = elim (Bool-cases (n == name)) [
  | inl e ↦ rw (e, Dict.delete) (AllPairs-delete name l u)
  | inr e ↦ rw (e, Dict.delete) (All-delete (Apart (n, b)) name l v, AllPairs-delete name l u)
]

in_table-delete_absent :
    (k : ℕ) (name : String) (l : List (String × ActiveFwd))
    → All (λ b. name ≢ b.0) l
    → in_table k (Dict.delete name l) ≡ in_table k l
unfolding in_table Dict.delete
in_table-delete_absent k name [] h = refl
in_table-delete_absent k name ((n, b) ∷ l) (h, hs) =
    ground (arith, string_eq.beq_iff n name, in_table-delete_absent k name l hs)

pub in_table-delete :
    (k : ℕ) (name : String) (af : ActiveFwd) (l : List (String × ActiveFwd))
    → AllPairs Apart l
    → Dict.lookup name l ≡ some af
    → in_table k (Dict.delete name l) ≡ (in_table k l && not (k == af.listener))
unfolding in_table Dict.delete Dict.lookup
in_table-delete k name af [] u h = cc
in_table-delete k name af ((n, b) ∷ l) (v, u) h = elim (Bool-cases (n == name)) [
  | inl e ↦
      let same : b ≡ af = ground (arith, e, h) in
      let gone =
        in_table-delete_absent k name l
          (All-imp l (λ c a. subst (λ x. x ≢ c.0) (beq→eq n name e) a.0) v) in
      elim (Bool-cases (k == af.listener)) [
        | inl own ↦
            let none_left = not_in_table k l (
              All-imp l
                (λ c a.
                  subst (λ x. x ≢ c.1.listener)
                    (ap (λ x. x.listener) same ∙ sym (beq→eq k af.listener own)) a.1)
                v) in
            ground (arith, e, own, gone, none_left)
        | inr other ↦ ground (arith, e, other, gone, ap (λ x. x.listener) same)
      ]
  | inr e ↦
      let ne : b.listener ≢ af.listener =
        Dict.lookup-All (λ c. b.listener ≢ c.1.listener) name af l (All-imp l (λ c a. a.1) v)
          (ground (arith, e, h)) in
      let rest = in_table-delete k name af l u (ground (arith, e, h)) in ground (arith, e, ne, rest)
]
