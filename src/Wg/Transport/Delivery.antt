-- ===== src/Wg/Transport/Delivery.antt =====
-- Everything that the device wrote comes to the router, as long as the TUN is open.
use mathlib.Core.List.{append-nil}
use gouter.Base.{
  nat_eq, ℕ, suc, ◌+◌, ◌*◌, ◌≤◌, ◌≡◌, refl, sym, ap, ap₂, subst, ◌∙◌, true, List, [], ◌∷◌, ◌++◌,
  false, All, length, arith, length-append, ◌⊎◌, inl, inr, Option-cases,
}
use gouter.Wg.Transport.{Pipe, Moves, takes, hands_over, quits, router_reads, as_packet}
use gouter.Wg.Transport.Pipeline.{IsOrdered, Moves-IsOrdered, IsOf, contents, held}

-- A run of `readLoop` and of the router's reader, and the number of its steps.
pub data Run (s : Pipe) : ℕ → Pipe → Type 0 where
  stay : Run s 0 s
  then : {n : ℕ} {t u : Pipe} → Run s n t → Moves t u → Run s (suc n) u

-- The steps that the packets on the way still need.
pub rank : Pipe → ℕ
rank s = 3 * length s.inbound + 2 * length (held s.in_hand) + length s.reader

-- What a step of the two changes of neither, and what it counts.
record Continues (s t : Pipe) : Type 0 where
  same_name : t.name ≡ s.name
  same_accepted : t.accepted ≡ s.accepted
  still_running : t.running ≡ s.running
  still_open : t.closed ≡ s.closed
  nearer : suc (rank t) ≡ rank s

Moves-Continues : {s t : Pipe} → s.closed ≡ false → Moves s t → Continues s t
unfolding rank held
Moves-Continues {s} {t} opened (takes bytes rest run empty queue e) =
    subst (Continues s) (sym e) (record {
      same_name = refl;
      same_accepted = refl;
      still_running = refl;
      still_open = refl;
      nearer = omega (arith, ap length queue, ap (λ h. length (held h)) empty);
    })
Moves-Continues {s} {t} opened (hands_over bytes hand room e) =
    subst (Continues s) (sym e) (record {
      same_name = refl;
      same_accepted = refl;
      still_running = refl;
      still_open = refl;
      nearer = omega (
        arith,
        ap (λ h. length (held h)) hand,
        length-append s.reader (as_packet s.name bytes ∷ []),
      );
    })
Moves-Continues {s} {t} opened (quits run h c e) = absurd (cc (opened, c))
Moves-Continues {s} {t} opened (router_reads pkt rest queue e) =
    subst (Continues s) (sym e) (record {
      same_name = refl;
      same_accepted = refl;
      still_running = refl;
      still_open = refl;
      nearer = omega (arith, ap length queue);
    })

List-cases {ℓ} : {A : Type ℓ} (l : List A) → (l ≡ []) ⊎ ((x : A) × (xs : List A) × (l ≡ x ∷ xs))
List-cases [] = inl refl
List-cases (x ∷ xs) = inr (x, xs, refl)

IsStuck : Pipe → Type 0
IsStuck t = (u : Pipe) → ¬ Moves t u

-- Where nothing can move, nothing is on the way.
stuck_empty :
    (t : Pipe)
    → t.running ≡ true
    → IsStuck t
    → contents t.reader ++ (held t.in_hand ++ t.inbound) ≡ []
unfolding IsStuck held
stuck_empty t run stuck = elim (List-cases t.reader) [
  | inr (pkt, rest, q) ↦ absurd (stuck _ (router_reads pkt rest q refl))
  | inl nothing_read ↦ elim (Option-cases t.in_hand) [
    | inr (bytes, h) ↦
        absurd (stuck _ (hands_over bytes h (omega (arith, ap length nothing_read)) refl))
    | inl empty ↦ elim (List-cases t.inbound) [
      | inr (bytes, rest, q) ↦ absurd (stuck _ (takes bytes rest run empty q refl))
      | inl none_in ↦
          ap₂ (λ r w. contents r ++ w) nothing_read (ap₂ (λ h i. held h ++ i) empty none_in)
    ]
  ]
]

-- What a run keeps, and the count of its steps.
record Ran (s : Pipe) (n : ℕ) (t : Pipe) : Type 0 where
  ordered : IsOrdered t
  same_name : t.name ≡ s.name
  same_accepted : t.accepted ≡ s.accepted
  running : t.running ≡ true
  opened : t.closed ≡ false
  count : n + rank t ≡ rank s

Run-Ran :
    {s : Pipe} {n : ℕ} {t : Pipe}
    → IsOrdered s
    → s.running ≡ true
    → s.closed ≡ false
    → Run s n t
    → Ran s n t
Run-Ran o run opened stay = record {
  ordered = o;
  same_name = refl;
  same_accepted = refl;
  running = run;
  opened = opened;
  count = omega arith;
}
Run-Ran o run opened (then r m) =
    let before = Run-Ran o run opened r in
    let c = Moves-Continues before.opened m in
    record {
      ordered = Moves-IsOrdered m before.ordered;
      same_name = c.same_name ∙ before.same_name;
      same_accepted = c.same_accepted ∙ before.same_accepted;
      running = c.still_running ∙ before.running;
      opened = c.still_open ∙ before.opened;
      count = omega (arith, c.nearer, before.count);
    }

-- From every state in order where `readLoop` runs and the TUN is open: however `readLoop` and the
-- router's reader are scheduled, they stop after at most `rank` steps, and when neither can move any
-- more the router has read everything that the device wrote, byte for byte and in order, each as an
-- IP packet of this transport.
pub Run-delivers :
    (s : Pipe) {n : ℕ} {t : Pipe}
    → IsOrdered s
    → s.running ≡ true
    → s.closed ≡ false
    → Run s n t
    → (n ≤ rank s)
      × (((u : Pipe) → ¬ Moves t u)
          → (contents t.delivered ≡ s.accepted) × All (IsOf s.name) t.delivered)
unfolding IsStuck
Run-delivers s {n} {t} o run opened r =
    let a = Run-Ran o run opened r in
    (
      omega (arith, a.count),
      λ stuck. (
        sym (append-nil (contents t.delivered))
            ∙ ap (λ w. contents t.delivered ++ w) (sym (stuck_empty t a.running stuck))
            ∙ a.ordered.order
            ∙ a.same_accepted,
        subst (λ name. All (IsOf name) t.delivered) a.same_name a.ordered.delivered_of,
      ),
    )
