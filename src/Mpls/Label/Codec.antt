-- ===== src/Mpls/Label/Codec.antt =====
-- `EncodeLabel` and `ParseLabel` are inverse to each other.
use gouter.Base.{
  ℕ, ◌+◌, ◌*◌, ◌%◌, ◌/◌, ◌^◌, ◌<◌, ◌≡◌, refl, Bool, true, false, List, [], ◌∷◌, ◌++◌, none, some,
  arith, min, ap, get_or, eqb, length-drop, ◌∙◌, length, take, drop, IsBytes, All-append, All-drop,
  subst,
}
use mathlib.Core.Option
use gouter.Base.Bits.{bit_or-add}
use gouter.Mpls.Label.{
  Entry, label_max, parse_label, entry_value, encode_label, pop_label, push_label, swap_label,
  has_label,
}

abbrev pub bit : Bool → ℕ
bit true = 1
bit false = 0

-- The 24 bits as a sum of fields.
pub entry_value-eq :
    (label tc : ℕ) (bottom : Bool)
    → tc < 8
    → entry_value label tc bottom ≡ min label label_max * 16 + tc * 2 + bit bottom
unfolding entry_value
entry_value-eq label tc true h = ground (
  arith,
  bit_or-add 4 (min label label_max) (tc * 2) (omega arith),
  bit_or-add 1 (min label label_max * 8 + tc) 1 (omega arith),
)
entry_value-eq label tc false h =
    ground (arith, bit_or-add 4 (min label label_max) (tc * 2) (omega arith))

abbrev entry_of : ℕ → ℕ → Entry
entry_of v ttl = record { label = v / 16; tc = v / 2 % 8; bottom = eqb (v % 2) 1; ttl = ttl }

parse_label-cons :
    (b0 b1 b2 b3 : ℕ) (rest : List ℕ)
    → b1 < 256
    → b2 < 256
    → parse_label (b0 ∷ b1 ∷ b2 ∷ b3 ∷ rest) ≡ some (entry_of (b0 * 65536 + b1 * 256 + b2) b3)
unfolding parse_label
parse_label-cons b0 b1 b2 b3 rest h1 h2 = ground (
  arith,
  bit_or-add 16 b0 (b1 * 256) (omega arith),
  bit_or-add 8 (b0 * 256 + b1) b2 (omega arith),
)

-- Parsing what was encoded gives every field back, a label above the limit as the limit, for
-- every traffic class of three bits and whatever follows the entry.
pub parse_label-encode_label :
    (label tc : ℕ) (bottom : Bool) (ttl : ℕ) (rest : List ℕ)
    → tc < 8
    → parse_label (encode_label label tc bottom ttl ++ rest)
      ≡ some (record { label = min label label_max; tc = tc; bottom = bottom; ttl = ttl })
unfolding encode_label
parse_label-encode_label label tc bottom ttl rest h =
    parse_label-cons (v / 65536 % 256) (v / 256 % 256) (v % 256) ttl rest (omega arith)
      (omega arith)
    ∙ fields bottom
  where
    v : ℕ
    v = entry_value label tc bottom

    fields :
        (b : Bool)
        → some (
            entry_of
              (entry_value label tc b / 65536 % 256 * 65536
                + entry_value label tc b / 256 % 256 * 256
                + entry_value label tc b % 256)
              ttl)
          ≡ some (record { label = min label label_max; tc = tc; bottom = b; ttl = ttl })
    fields true = ground (arith, entry_value-eq label tc true h)
    fields false = ground (arith, entry_value-eq label tc false h)

parse_label_short : (pkt : List ℕ) → length pkt < 4 → parse_label pkt ≡ none
unfolding parse_label
parse_label_short pkt h = ground arith

-- The 24 bits of a parsed entry are the number that its first three bytes spell.
entry_value-entry_of :
    (v ttl : ℕ)
    → v < 2 ^ 24
    → entry_value (entry_of v ttl).label (entry_of v ttl).tc (entry_of v ttl).bottom ≡ v
entry_value-entry_of v ttl h =
    ground (arith, entry_value-eq (v / 16) (v / 2 % 8) (eqb (v % 2) 1) (omega arith))

encode_label-entry_of :
    (b0 b1 b2 b3 : ℕ)
    → b0 < 256
    → b1 < 256
    → b2 < 256
    → let e = entry_of (b0 * 65536 + b1 * 256 + b2) b3 in
      encode_label e.label e.tc e.bottom e.ttl ≡ b0 ∷ b1 ∷ b2 ∷ b3 ∷ []
unfolding encode_label
encode_label-entry_of b0 b1 b2 b3 h0 h1 h2 =
    rw (entry_value-entry_of (b0 * 65536 + b1 * 256 + b2) b3 (omega arith)) (ground arith)

-- Encoding what was parsed from a packet of bytes gives its first four bytes back.
encode_label-parse_label :
    (pkt : List ℕ) {e : Entry}
    → IsBytes pkt
    → parse_label pkt ≡ some e
    → encode_label e.label e.tc e.bottom e.ttl ≡ take 4 pkt
encode_label-parse_label (b0 ∷ b1 ∷ b2 ∷ b3 ∷ rest) {e} (h0, (h1, (h2, hs))) parsed =
    let same : entry_of (b0 * 65536 + b1 * 256 + b2) b3 ≡ e =
      cc (parse_label-cons b0 b1 b2 b3 rest h1 h2) in
    rw (← same) (encode_label-entry_of b0 b1 b2 b3 h0 h1 h2)
encode_label-parse_label pkt bytes parsed =
    absurd (ground (arith, parse_label_short pkt (omega arith)))

-- The codec is its own inverse both ways: parsing what was encoded gives every field back, a label
-- above the limit as the limit, for every traffic class of three bits and whatever follows the
-- entry; and encoding what was parsed from a packet of bytes gives its first four bytes back.
pub parse_label-encode_label_both :
    (label tc : ℕ) (bottom : Bool) (ttl : ℕ) (rest pkt : List ℕ) {e : Entry}
    → tc < 8
    → IsBytes pkt
    → parse_label pkt ≡ some e
    → (parse_label (encode_label label tc bottom ttl ++ rest)
        ≡ some (record { label = min label label_max; tc = tc; bottom = bottom; ttl = ttl }))
      × (encode_label e.label e.tc e.bottom e.ttl ≡ take 4 pkt)
parse_label-encode_label_both label tc bottom ttl rest pkt h bytes parsed =
    (parse_label-encode_label label tc bottom ttl rest h, encode_label-parse_label pkt bytes parsed)

pub drop-encode_label :
    (label tc : ℕ) (bottom : Bool) (ttl : ℕ) (rest : List ℕ)
    → drop 4 (encode_label label tc bottom ttl ++ rest) ≡ rest
unfolding encode_label
drop-encode_label label tc bottom ttl rest = refl

-- A popped label is the one pushed, or the limit where it is larger, and the payload is as it was.
pub pop_label-push_label :
    (pkt : List ℕ) (label : ℕ) → pop_label (push_label pkt label) ≡ some (min label label_max, pkt)
unfolding pop_label push_label
pop_label-push_label pkt label = ground (
  arith,
  parse_label-encode_label label 0 true 64 pkt (omega arith),
  drop-encode_label label 0 true 64 pkt,
)

-- A swap is a pop and then a push, and fails exactly where the pop does.
pub swap_label-eq :
    (pkt : List ℕ) (new : ℕ)
    → swap_label pkt new ≡ Option.map (λ p. push_label p.1 new) (pop_label pkt)
unfolding swap_label pop_label push_label parse_label
swap_label-eq pkt new = ground arith

-- A popped packet is four bytes shorter.
pub length-pop_label :
    (pkt : List ℕ) {l : ℕ} {rest : List ℕ}
    → pop_label pkt ≡ some (l, rest)
    → length rest + 4 ≡ length pkt
unfolding pop_label parse_label
length-pop_label pkt h = ground (arith, length-drop 4 pkt)

-- The first byte of a pushed label has its first eight bits, and there are four bytes.
pub push_label_bytes :
    (pkt : List ℕ) (l : ℕ)
    → (get_or (push_label pkt l) 0 0 ≡ min l label_max / 4096)
      × (length (push_label pkt l) ≡ 4 + length pkt)
unfolding push_label encode_label
push_label_bytes pkt l = (omega (arith, entry_value-eq l 0 true (omega arith)), omega arith)

pub has_label-push_label : (pkt : List ℕ) (l : ℕ) → has_label (push_label pkt l) ≡ true
unfolding has_label push_label encode_label
has_label-push_label pkt l = ground arith

pub length-push_label : (pkt : List ℕ) (l : ℕ) → length (push_label pkt l) ≡ 4 + length pkt
length-push_label pkt l = (push_label_bytes pkt l).1

pub drop-push_label : (pkt : List ℕ) (l : ℕ) → drop 4 (push_label pkt l) ≡ pkt
unfolding push_label
drop-push_label pkt l = drop-encode_label l 0 true 64 pkt

pub swap_label-push_label :
    (pkt : List ℕ) (l new : ℕ) → swap_label (push_label pkt l) new ≡ some (push_label pkt new)
swap_label-push_label pkt l new =
    swap_label-eq (push_label pkt l) new
    ∙ ap (Option.map (λ p. push_label p.1 new)) (pop_label-push_label pkt l)

pub parse_label-push_label :
    (pkt : List ℕ) (l : ℕ)
    → parse_label (push_label pkt l)
      ≡ some (record { label = min l label_max; tc = 0; bottom = true; ttl = 64 })
unfolding push_label
parse_label-push_label pkt l = parse_label-encode_label l 0 true 64 pkt (omega arith)

-- Where an entry parses, it is popped and it can be swapped.
module _ (pkt : List ℕ) {e : Entry} (parsed : parse_label pkt ≡ some e) where
  pub pop_label-parse_label : pop_label pkt ≡ some (e.label, drop 4 pkt)
  unfolding pop_label
  pop_label-parse_label = ground (arith, parsed)

  pub swap_label-parse_label : (new : ℕ) → swap_label pkt new ≡ some (push_label (drop 4 pkt) new)
  swap_label-parse_label new =
      swap_label-eq pkt new ∙ ap (Option.map (λ p. push_label p.1 new)) pop_label-parse_label

encode_label-IsBytes :
    (label tc : ℕ) (bottom : Bool) (ttl : ℕ)
    → ttl < 256
    → IsBytes (encode_label label tc bottom ttl)
unfolding encode_label
encode_label-IsBytes label tc bottom ttl h = omega arith

pub push_label-IsBytes : (pkt : List ℕ) (label : ℕ) → IsBytes pkt → IsBytes (push_label pkt label)
unfolding push_label
push_label-IsBytes pkt label b =
    All-append (λ x. x < 256) (encode_label label 0 true 64) pkt
      (encode_label-IsBytes label 0 true 64 (omega arith)) b

pub pop_label-IsBytes :
    (pkt : List ℕ) {l : ℕ} {rest : List ℕ}
    → pop_label pkt ≡ some (l, rest)
    → IsBytes pkt
    → IsBytes rest
unfolding pop_label parse_label
pop_label-IsBytes pkt {l} {rest} e b =
    let same : drop 4 pkt ≡ rest = ground (arith, e) in
    subst IsBytes same (All-drop (λ x. x < 256) 4 pkt b)

pub swap_label-IsBytes :
    (pkt : List ℕ) (new : ℕ) {out : List ℕ}
    → swap_label pkt new ≡ some out
    → IsBytes pkt
    → IsBytes out
unfolding swap_label
swap_label-IsBytes pkt new {out} e b =
    let same : push_label (drop 4 pkt) new ≡ out = unfold push_label in ground (arith, e) in
    subst IsBytes same (push_label-IsBytes (drop 4 pkt) new (All-drop (λ x. x < 256) 4 pkt b))
