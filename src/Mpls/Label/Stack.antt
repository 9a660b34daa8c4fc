-- ===== src/Mpls/Label/Stack.antt =====
-- Stacks of labels: what `PushLabels` writes, and who can read it.
use gouter.Base.{
  ℕ, zero, suc, ◌+◌, ◌*◌, ◌≡◌, refl, ap, ◌∙◌, true, List, [], ◌∷◌, map, Option, none, some, arith,
  if◌then◌else◌, min, length, drop, Option-cases, inl, inr,
}
use gouter.Mpls.Label.{
  label_max, parse_label, encode_label, push_label, pop_label, push_from, push_labels,
}
use gouter.Mpls.Label.Codec.{parse_label-encode_label, drop-encode_label, pop_label-push_label}

-- The first label pushed last.
abbrev pub push_all : List ℕ → List ℕ → List ℕ
push_all pkt [] = pkt
push_all pkt (l ∷ ls) = push_label (push_all pkt ls) l

push_from-cons :
    (i : ℕ) (pkt : List ℕ) (l : ℕ) (ls : List ℕ)
    → push_from pkt (l ∷ ls) (suc i) ≡ push_label (push_from pkt ls i) l
unfolding push_from
push_from-cons zero pkt l ls = refl
push_from-cons (suc i) pkt l ls = push_from-cons i _ l ls

-- The loop from the last label to the first puts the first label on top.
pub push_labels-eq : (pkt labels : List ℕ) → push_labels pkt labels ≡ push_all pkt labels
unfolding push_labels push_from
push_labels-eq pkt [] = refl
push_labels-eq pkt (l ∷ ls) =
    push_from-cons (length ls) pkt l ls
    ∙ ap (λ p. push_label p l) (unfold push_labels in push_labels-eq pkt ls)

length-push_label : (pkt : List ℕ) (l : ℕ) → length (push_label pkt l) ≡ 4 + length pkt
unfolding push_label encode_label
length-push_label pkt l = omega arith

-- Every label adds four bytes.
pub length-push_labels :
    (pkt labels : List ℕ) → length (push_labels pkt labels) ≡ 4 * length labels + length pkt
length-push_labels pkt labels = rw (push_labels-eq pkt labels) (go labels)
  where
    go : (ls : List ℕ) → length (push_all pkt ls) ≡ 4 * length ls + length pkt
    go [] = omega arith
    go (l ∷ ls) = omega (arith, length-push_label (push_all pkt ls) l, go ls)

-- `PopLabel` so many times: the labels in their order, and what is left.
pub pop_times : ℕ → List ℕ → Option (List ℕ × List ℕ)
pop_times zero pkt = some ([], pkt)
pop_times (suc n) pkt = elim (pop_label pkt) [
  | none ↦ none
  | some (l, rest) ↦ elim (pop_times n rest) [
    | none ↦ none
    | some (ls, payload) ↦ some (l ∷ ls, payload)
  ]
]

-- One label that pops is a pop.
pub pop_times_one :
    (pkt : List ℕ) (l : ℕ) (rest : List ℕ)
    → pop_times 1 pkt ≡ some (l ∷ [], rest)
    → pop_label pkt ≡ some (l, rest)
unfolding pop_times
pop_times_one pkt l rest h = elim (Option-cases (pop_label pkt)) [
  | inl e ↦ absurd (ground (arith, h, e))
  | inr ((k, others), e) ↦ ground (arith, h, e)
]

pop_times-push_all :
    (pkt labels : List ℕ)
    → pop_times (length labels) (push_all pkt labels)
      ≡ some (map (λ l. min l label_max) labels, pkt)
unfolding pop_times
pop_times-push_all pkt [] = refl
pop_times-push_all pkt (l ∷ ls) =
    ground (arith, pop_label-push_label (push_all pkt ls) l, pop_times-push_all pkt ls)

-- Popping as often as was pushed gives the labels back in their order, each cut to the limit, and
-- the packet as it was.
pub pop_times-push_labels :
    (pkt labels : List ℕ)
    → pop_times (length labels) (push_labels pkt labels)
      ≡ some (map (λ l. min l label_max) labels, pkt)
pop_times-push_labels pkt labels = rw (push_labels-eq pkt labels) (pop_times-push_all pkt labels)

-- A reader after RFC 3032: entries up to the first whose bottom-of-stack bit is set.
pub read_stack : ℕ → List ℕ → Option (List ℕ × List ℕ)
read_stack zero pkt = none
read_stack (suc n) pkt = elim (parse_label pkt) [
  | none ↦ none
  | some e ↦
      let deeper = read_stack n (drop 4 pkt) in
      if e.bottom
      then some (e.label ∷ [], drop 4 pkt)
      else elim deeper [ none ↦ none | some (ls, payload) ↦ some (e.label ∷ ls, payload) ]
]

-- Every entry of a pushed stack says that it is the last: whatever labels follow the first, a
-- reader after RFC 3032 finds one label, and takes the other entries for the payload.
read_stack-push_labels :
    (n : ℕ) (pkt : List ℕ) (l : ℕ) (ls : List ℕ)
    → read_stack (suc n) (push_labels pkt (l ∷ ls))
      ≡ some (min l label_max ∷ [], push_labels pkt ls)
unfolding read_stack push_label
read_stack-push_labels n pkt l ls =
    rw (push_labels-eq pkt (l ∷ ls), push_labels-eq pkt ls)
      (ground (
        arith,
        parse_label-encode_label l 0 true 64 (push_all pkt ls) (omega arith),
        drop-encode_label l 0 true 64 (push_all pkt ls),
      ))

-- What becomes of a pushed stack: popping as often as was pushed gives the labels back in their
-- order, each cut to the limit, and the packet as it was. But every entry says that it is the last:
-- whatever labels follow the first, a reader after RFC 3032 finds one label, and takes the other
-- entries for the payload.
pub push_labels-readers :
    (n : ℕ) (pkt : List ℕ) (l : ℕ) (ls : List ℕ)
    → (pop_times (length (l ∷ ls)) (push_labels pkt (l ∷ ls))
        ≡ some (map (λ k. min k label_max) (l ∷ ls), pkt))
      × (read_stack (suc n) (push_labels pkt (l ∷ ls))
          ≡ some (min l label_max ∷ [], push_labels pkt ls))
push_labels-readers n pkt l ls =
    (pop_times-push_labels pkt (l ∷ ls), read_stack-push_labels n pkt l ls)
