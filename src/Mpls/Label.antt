-- ===== src/Mpls/Label.antt =====
-- internal/mpls/label.go: one label stack entry, and a stack of them before a payload.
pub mod Codec
pub mod Stack
use gouter.Base.{
  ℕ, zero, suc, ◌+◌, ◌-◌, ◌≤◌, ◌<◌, Bool, true, false, List, [], ◌∷◌, ◌++◌, Option, none, some,
  bit_or, ltb, leb, eqb, if◌then◌else◌, length, get_or, drop, u8, u32, shr, shl, low_bits,
}
use mathlib.Core.Option

abbrev pub label_reserved_max : ℕ
label_reserved_max = 15

abbrev pub label_max : ℕ
label_max = 0xfffff

abbrev pub label_entry_size : ℕ
label_entry_size = 4

-- The protocol number of MPLS in IP.
abbrev pub ip_proto_mpls : ℕ
ip_proto_mpls = 137

-- The results of `ParseLabel` other than its error.
pub record Entry : Type 0 where
  pub label : ℕ
  pub tc : ℕ
  pub bottom : Bool
  pub ttl : ℕ

unfoldable pub parse_label : List ℕ → Option Entry
parse_label bytes =
    if ltb (length bytes) label_entry_size
    then none
    else (let v =
          bit_or (bit_or (shl (get_or bytes 0 0) 16) (shl (get_or bytes 1 0) 8))
            (get_or bytes 2 0) in
        some (record {
          label = shr v 4;
          tc = low_bits (shr v 1) 3;
          bottom = eqb (low_bits v 1) 1;
          ttl = get_or bytes 3 0;
        }))

-- The first 24 bits of an entry. A label that is too large is cut to the largest.
pub entry_value : ℕ → ℕ → Bool → ℕ
entry_value label tc bottom =
    let clamped = if ltb label_max label then label_max else label in
    let v = bit_or (u32 (shl clamped 4)) (shl tc 1) in if bottom then bit_or v 1 else v

pub encode_label : ℕ → ℕ → Bool → ℕ → List ℕ
encode_label label tc bottom ttl =
    let v = entry_value label tc bottom in u8 (shr v 16) ∷ u8 (shr v 8) ∷ u8 v ∷ ttl ∷ []

pub bottom_of_stack : ℕ → List ℕ
bottom_of_stack label = encode_label label 0 true 255

pub non_bottom_of_stack : ℕ → List ℕ
non_bottom_of_stack label = encode_label label 0 false 255

pub push_label : List ℕ → ℕ → List ℕ
push_label pkt label = encode_label label 0 true 64 ++ pkt

unfoldable pub pop_label : List ℕ → Option (ℕ × List ℕ)
pop_label pkt = elim (parse_label pkt) [
  | none ↦ none
  | some entry ↦ some (entry.label, drop label_entry_size pkt)
]

-- `none` is the error; else the packet as it is after the call.
pub swap_label : List ℕ → ℕ → Option (List ℕ)
swap_label pkt new_label =
    if ltb (length pkt) label_entry_size
    then none
    else some (encode_label new_label 0 true 64 ++ drop label_entry_size pkt)

-- The loop of `PushLabels`, with the labels below index `i` left to push.
pub push_from : List ℕ → List ℕ → ℕ → List ℕ
push_from pkt labels zero = pkt
push_from pkt labels (suc i) = push_from (push_label pkt (get_or labels i 0)) labels i

pub push_labels : List ℕ → List ℕ → List ℕ
push_labels pkt labels = push_from pkt labels (length labels)

pub has_label : List ℕ → Bool
has_label pkt = leb label_entry_size (length pkt)

pub is_mpls_over_ip : ℕ → Bool
is_mpls_over_ip protocol = eqb protocol ip_proto_mpls
