-- ===== src/Netstack/Forward/Listeners.antt =====
-- The open listeners are those of the table.
use gouter.Base.{
  string_eq, nat_eq, ℕ, ◌≡◌, refl, sym, ap, subst, ◌∙◌, true, false, ◌&&◌, ◌||◌, not, List, Option,
  none, some, String, ◌==◌, arith, AllPairs, Option-cases, inl, inr,
}
use gouter.Base.Dict
use gouter.Netstack.Forward.{
  ForwardRule, ActiveFwd, ForwardManager, entries, panicked, store, add_forward, remove_forward,
  in_table, close_forwards, opened,
}
use gouter.Netstack.Forward.InTable.{
  Apart, in_table-insert, in_table-false, All-Apart, AllPairs-delete, in_table-delete,
}

-- The open listeners are those of the table, and no two entries share a name or a listener.
pub record IsTidy (m : ForwardManager) : Type 0 where
  pub apart : AllPairs Apart (entries m.fwd)
  pub exact : (k : ℕ) → m.is_open k ≡ in_table k (entries m.fwd)

tidy_entries :
    (m : ForwardManager) (l : List (String × ActiveFwd))
    → IsTidy m
    → m.fwd ≡ some l
    → AllPairs Apart l × ((k : ℕ) → m.is_open k ≡ in_table k l)
tidy_entries m l t here = (
  subst (λ f. AllPairs Apart (entries f)) here t.apart,
  subst (λ f. (k : ℕ) → m.is_open k ≡ in_table k (entries f)) here t.exact,
)

store_open :
    (m : ForwardManager) (l : List (String × ActiveFwd)) (rule : ForwardRule) (ln : ℕ)
    → m.fwd ≡ some l
    → (store m rule ln).0 ≡ record {
      fwd = some (Dict.insert rule.name (record { rule = rule; listener = ln }) l);
      is_open = opened m ln;
    }
unfolding store
store_open m l rule ln here = rw (here, store) refl

-- A new listener is none of those that are open.
store-IsTidy :
    (m : ForwardManager) (l : List (String × ActiveFwd)) (rule : ForwardRule) (ln : ℕ)
    → IsTidy m
    → m.fwd ≡ some l
    → Dict.lookup rule.name l ≡ none
    → m.is_open ln ≡ false
    → IsTidy (store m rule ln).0
unfolding store
store-IsTidy m l rule ln t here absent new =
    let af : ActiveFwd = record { rule = rule; listener = ln } in
    let (apart, exact) = tidy_entries m l t here in
    let free = in_table-false ln l (sym (exact ln) ∙ new) in
    subst IsTidy (sym (store_open m l rule ln here)) (record {
      apart =
          Dict.AllPairs-insert Apart rule.name af l absent
            (All-Apart rule.name af l (Dict.lookup-none rule.name l absent) free) apart;
      exact = λ k. ap (λ b. k == ln || b) (exact k) ∙ sym (in_table-insert k rule.name af l absent);
    })

remove_forward-IsTidy :
    (m : ForwardManager) (name : String) → IsTidy m → IsTidy (remove_forward m name)
unfolding remove_forward
remove_forward-IsTidy m name t = elim (Option-cases m.fwd) [
  | inl e ↦ rw (e, remove_forward) t
  | inr (l, e) ↦ elim (Option-cases (Dict.lookup name l)) [
    | inl f ↦ rw (e, f, remove_forward) t
    | inr (af, f) ↦
        let (apart, exact) = tidy_entries m l t e in
        rw (e, f, remove_forward)
          (record {
            apart = AllPairs-delete name l apart;
            exact = λ k.
                ap (λ b. b && not (k == af.listener)) (exact k)
                ∙ sym (in_table-delete k name af l apart f);
          })
  ]
]

close_forwards-IsTidy : (m : ForwardManager) → IsTidy m → IsTidy (close_forwards m)
unfolding close_forwards in_table
close_forwards-IsTidy m t = record { apart = tt; exact = λ k. ground (arith, t.exact k) }

add_forward-IsTidy :
    (m : ForwardManager) (l : List (String × ActiveFwd)) (rule : ForwardRule) (listened : Option ℕ)
    → IsTidy m
    → m.fwd ≡ some l
    → ((ln : ℕ) → listened ≡ some ln → m.is_open ln ≡ false)
    → IsTidy (add_forward m rule listened).0
unfolding add_forward
add_forward-IsTidy m l rule listened t here new =
    let at : entries m.fwd ≡ l = ap entries here in
    elim (Option-cases (Dict.lookup rule.name (entries m.fwd))) [
      | inr (af, e) ↦ rw (e, add_forward) t
      | inl e ↦ elim (Option-cases listened) [
        | inl f ↦ rw (e, f, add_forward) t
        | inr (ln, f) ↦
            rw (e, f, add_forward)
              (store-IsTidy m l rule ln t here (subst (λ x. Dict.lookup rule.name x ≡ none) at e)
                (new ln f))
      ]
    ]

-- Until `Close`, where a listener that the netstack opens is a new one: whatever `Add` meets, it and
-- `Remove` and `Close` keep the open listeners exactly those of the table, each of one rule.
pub forwards-IsTidy :
    (m : ForwardManager) (l : List (String × ActiveFwd)) (rule : ForwardRule) (listened : Option ℕ)
    (name : String)
    → IsTidy m
    → m.fwd ≡ some l
    → ((ln : ℕ) → listened ≡ some ln → m.is_open ln ≡ false)
    → IsTidy (add_forward m rule listened).0
      × IsTidy (remove_forward m name)
      × IsTidy (close_forwards m)
forwards-IsTidy m l rule listened name t here new = (
  add_forward-IsTidy m l rule listened t here new,
  remove_forward-IsTidy m name t,
  close_forwards-IsTidy m t,
)

-- After `Close` an `Add` whose port can be listened on panics, and leaves a listener open that is of
-- no rule: no removal and no further `Close` closes it.
pub close_forwards-add :
    (m : ForwardManager) (rule : ForwardRule) (ln : ℕ) (name : String)
    → let m' = (add_forward (close_forwards m) rule (some ln)).0 in
      ((add_forward (close_forwards m) rule (some ln)).1 ≡ panicked)
      × ((remove_forward m' name).is_open ln ≡ true)
      × ((close_forwards m').is_open ln ≡ true)
unfolding add_forward close_forwards remove_forward store in_table Dict.lookup
close_forwards-add m rule ln name = (refl, ground arith, ground arith)
