-- ===== src/Bgp/Paths.antt =====
-- internal/bgp/speaker.go: what the best paths of BGP do to the forwarding and the label table.
-- The path attributes and NLRI are gobgp's; a value here has what the type switches tell apart.
pub mod Changes
pub mod Effects
pub mod Withdrawals
pub mod Labels
pub mod Bindings
use gouter.Base.{
  ℕ, zero, suc, ◌+◌, Bool, true, false, List, [], ◌∷◌, Option, none, some, String, ◌==◌,
  if◌then◌else◌, take, length, leb, ltb, not, shr,
}
use gouter.Netip.{Addr, invalid, addr_eq, is_valid, Prefix, prefix_from, addr_from_slice}
use gouter.Mpls.Lfib.{Lfib, LfibEntry, op_pop}
use gouter.Mpls.Lfib as LabelTable
use gouter.Router.Fib.{Fib, FibEntry, action_forward, action_push}
use gouter.Router.Fib as Table

pub data Family : Type 0 where
  ipv4_uc ipv6_uc ipv4_mpls ipv6_mpls sr_policy_ipv4 sr_policy_ipv6 other_family : Family

-- `labelled` stands for `LabeledIPAddrPrefix` and `LabeledVPNIPAddrPrefix`, which are read alike.
pub data Nlri : Type 0 where
  ip_prefix : Prefix → Nlri
  labelled : Prefix → List ℕ → Nlri
  sr_policy : List ℕ → Nlri
  other_nlri : Nlri

pub data Segment : Type 0 where
  type_a : ℕ → Segment
  other_segment : Segment

pub data SubTlv : Type 0 where
  segment_list : List Segment → SubTlv
  other_sub_tlv : SubTlv

-- A tunnel encapsulation holds TLVs, and each of them sub-TLVs.
pub data Attribute : Type 0 where
  next_hop : Addr → Attribute
  mp_reach : Addr → Attribute
  tunnel_encap : List (List SubTlv) → Attribute
  other_attribute : Attribute

pub record BestPath : Type 0 where
  pub family : Family
  pub nlri : Nlri
  pub attrs : List Attribute
  pub withdrawal : Bool

-- The callback `ResolveNH` is one function for as long as the speaker lives; nothing in the
-- repository sets it.
pub record Speaker : Type 0 where
  pub router_id : String
  pub resolve_nh : Option (Addr → String × Bool)
  pub fib : Fib
  pub lfib : Lfib
  pub route_count : ℕ

unfoldable pub extract_next_hop : List Attribute → Addr
extract_next_hop [] = invalid
extract_next_hop (next_hop a ∷ attrs) = a
extract_next_hop (mp_reach a ∷ attrs) = a
extract_next_hop (tunnel_encap tlvs ∷ attrs) = extract_next_hop attrs
extract_next_hop (other_attribute ∷ attrs) = extract_next_hop attrs

-- The next hop of a path; `none` where it has no valid one.
unfoldable pub valid_next_hop : List Attribute → Option Addr
valid_next_hop attrs = let nh = extract_next_hop attrs in if is_valid nh then some nh else none

unfoldable pub extract_unicast_info : BestPath → Option (Prefix × Addr)
extract_unicast_info p = elim p.nlri [
  | ip_prefix prefix ↦ elim (valid_next_hop p.attrs) [ none ↦ none | some nh ↦ some (prefix, nh) ]
  | labelled _ _ ↦ none
  | sr_policy _ ↦ none
  | other_nlri ↦ none
]

unfoldable pub extract_labelled_info : BestPath → Option (Prefix × Addr × List ℕ)
extract_labelled_info p = elim p.nlri [
  | ip_prefix _ ↦ none
  | labelled prefix labels ↦ elim (valid_next_hop p.attrs) [
    | none ↦ none
    | some nh ↦ some (prefix, nh, labels)
  ]
  | sr_policy _ ↦ none
  | other_nlri ↦ none
]

-- The labels of a segment list: those of its segments of type A.
pub labels_of : List Segment → List ℕ
labels_of [] = []
labels_of (type_a label ∷ segs) = shr label 12 ∷ labels_of segs
labels_of (other_segment ∷ segs) = labels_of segs

-- The loops over the sub-TLVs and the TLVs: the labels of the first segment list.
pub first_segments : List SubTlv → Option (List ℕ)
first_segments [] = none
first_segments (segment_list segs ∷ subs) = some (labels_of segs)
first_segments (other_sub_tlv ∷ subs) = first_segments subs

pub first_in_tlvs : List (List SubTlv) → Option (List ℕ)
first_in_tlvs [] = none
first_in_tlvs (subs ∷ tlvs) = elim (first_segments subs) [
  | some labels ↦ some labels
  | none ↦ first_in_tlvs tlvs
]

pub extract_segments : List Attribute → List ℕ
extract_segments [] = []
extract_segments (tunnel_encap tlvs ∷ attrs) = elim (first_in_tlvs tlvs) [
  | some labels ↦ labels
  | none ↦ extract_segments attrs
]
extract_segments (next_hop _ ∷ attrs) = extract_segments attrs
extract_segments (mp_reach _ ∷ attrs) = extract_segments attrs
extract_segments (other_attribute ∷ attrs) = extract_segments attrs

unfoldable pub resolve_transport : Speaker → Addr → String
resolve_transport s nh = elim s.resolve_nh [ none ↦ "" | some f ↦ (f nh).0 ]

unfoldable pub handle_unicast_path : Speaker → BestPath → Speaker
handle_unicast_path s p = elim (extract_unicast_info p) [
  | none ↦ s
  | some (prefix, nh) ↦
      if p.withdrawal then record s { fib = Table.remove s.fib prefix } else record s {
        fib = Table.add s.fib (record {
          prefix = prefix;
          next_hop = nh;
          transport = resolve_transport s nh;
          action = action_forward;
          out_labels = [];
        });
        route_count = s.route_count + 1;
      }
]

-- The entry that a labelled path from another router installs.
abbrev pub push_entry : Prefix → Addr → List ℕ → String → FibEntry
push_entry prefix nh labels transport = record {
  prefix = prefix;
  next_hop = nh;
  transport = transport;
  action = action_push;
  out_labels = labels;
}

abbrev pub pop_entry : ℕ → Addr → LfibEntry
pop_entry label nh = record {
  in_label = label;
  op = op_pop;
  out_labels = [];
  next_hop = nh;
  transport = "";
}

-- The address of the first four bytes of an SR policy's endpoint.
pub endpoint_addr : List ℕ → Addr
endpoint_addr bytes = if leb 4 (length bytes) then addr_from_slice (take 4 bytes) else invalid

pub handle_sr_policy : Speaker → BestPath → Speaker
handle_sr_policy s p = elim p.nlri [
  | ip_prefix _ ↦ s
  | labelled _ _ ↦ s
  | other_nlri ↦ s
  | sr_policy endpoint ↦
      let endp = endpoint_addr endpoint in
      let prefix = prefix_from endp 32 in
      if not (is_valid endp)
      then s
      else (if p.withdrawal then record s { fib = Table.remove s.fib prefix } else record s {
        fib = Table.add s.fib (push_entry prefix endp (extract_segments p.attrs) "");
      })
]

-- `netip.ParseAddr` is a parameter: `none` where it fails.
module _ (parse_addr : String → Option Addr) where
  -- A labelled path with the first of its labels; `none` is the panic of `MustParseAddr`.
  unfoldable pub learn_label : Speaker → Prefix → Addr → ℕ → List ℕ → Option Speaker
  learn_label s prefix nh label labels = elim (parse_addr s.router_id) [
    | none ↦ none
    | some router_id ↦
        if nh == router_id
        then some (record s { lfib = LabelTable.add s.lfib (pop_entry label nh) })
        else some (record s {
          fib = Table.add s.fib (push_entry prefix nh labels (resolve_transport s nh));
        })
  ]

  unfoldable pub handle_labelled_path : Speaker → BestPath → Option Speaker
  handle_labelled_path s p = elim (extract_labelled_info p) [
    | none ↦ some s
    | some (prefix, nh, labels) ↦ elim labels [
      | [] ↦ some s
      | label ∷ rest ↦
          if p.withdrawal
          then some (record s { fib = Table.remove s.fib prefix })
          else learn_label s prefix nh label (label ∷ rest)
    ]
  ]

  unfoldable pub handle_path : Speaker → BestPath → Option Speaker
  handle_path s p = elim p.family [
    | ipv4_uc ↦ some (handle_unicast_path s p)
    | ipv6_uc ↦ some (handle_unicast_path s p)
    | ipv4_mpls ↦ handle_labelled_path s p
    | ipv6_mpls ↦ handle_labelled_path s p
    | sr_policy_ipv4 ↦ some (handle_sr_policy s p)
    | sr_policy_ipv6 ↦ some (handle_sr_policy s p)
    | other_family ↦ some s
  ]

  unfoldable pub handle_best_path : Speaker → List BestPath → Option Speaker
  handle_best_path s [] = some s
  handle_best_path s (p ∷ ps) = elim (handle_path s p) [
    | none ↦ none
    | some s' ↦ handle_best_path s' ps
  ]
