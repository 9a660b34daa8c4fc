-- ===== src/Bgp/Paths/Changes.antt =====
-- What a best path says of the forwarding table, apart from how the speaker's handlers do it.
use gouter.Base.{
  nat_eq, string_eq, ℕ, Bool, true, false, List, [], ◌∷◌, Option, none, some, String, ◌==◌,
  if◌then◌else◌, not, ◌&&◌,
}
use gouter.Netip.{Addr, addr_eq, is_valid, Prefix, prefix_eq, prefix_from}
use gouter.Router.Fib.{Fib, FibEntry, action_forward, has_exact}
use gouter.Router.Fib as Table
use gouter.Mpls.Lfib.{Lfib}
use gouter.Mpls.Lfib as LabelTable
use gouter.Bgp.Paths.{
  Family, ipv4_uc, ipv6_uc, ipv4_mpls, ipv6_mpls, sr_policy_ipv4, sr_policy_ipv6, Nlri, ip_prefix,
  labelled, sr_policy, Attribute, BestPath, extract_next_hop, extract_segments, push_entry,
  pop_entry, endpoint_addr,
}

-- A change of the table: an entry for its prefix, or none for a prefix.
pub data Change : Type 0 where
  nothing : Change
  learn : FibEntry → Change
  forget : Prefix → Change

-- What a table holds at a prefix after a change, given what it held.
unfoldable pub after : Prefix → Option FibEntry → Change → Option FibEntry
after q old nothing = old
after q old (learn e) = if e.prefix == q then some e else old
after q old (forget p) = if p == q then none else old

unfoldable pub apply_change : Fib → Change → Fib
apply_change f nothing = f
apply_change f (learn e) = Table.add f e
apply_change f (forget p) = Table.remove f p

-- What a path says of the table: a withdrawal forgets the prefix, an announcement learns the entry,
-- and a path that says nothing is one with no next hop, no label, or no endpoint.
unfoldable pub says : Bool → FibEntry → Change
says true e = forget e.prefix
says false e = learn e

-- The change that a path makes, read off its family and its NLRI, with the address of the router
-- itself. `learned` paths carry a valid next hop; the labels of a labelled path are not empty.
module _ (self : Addr) (transport : Addr → String) where
  unfoldable pub unicast_change : List Attribute → Bool → Prefix → Change
  unicast_change attrs w prefix =
      let nh = extract_next_hop attrs in
      if is_valid nh
      then says w (record {
        prefix = prefix;
        next_hop = nh;
        transport = transport nh;
        action = action_forward;
        out_labels = [];
      })
      else nothing

  -- A labelled announcement of the router itself touches the label table only.
  unfoldable pub labelled_change : List Attribute → Bool → Prefix → List ℕ → Change
  labelled_change attrs w prefix [] = nothing
  labelled_change attrs w prefix (l ∷ ls) =
      let nh = extract_next_hop attrs in
      if is_valid nh
      then (if not w && nh == self
          then nothing
          else says w (push_entry prefix nh (l ∷ ls) (transport nh)))
      else nothing

  unfoldable pub policy_change : List Attribute → Bool → List ℕ → Change
  policy_change attrs w endpoint =
      let endp = endpoint_addr endpoint in
      if is_valid endp
      then says w (push_entry (prefix_from endp 32) endp (extract_segments attrs) "")
      else nothing

  unfoldable pub change_of : Family → Nlri → List Attribute → Bool → Change
  change_of ipv4_uc (ip_prefix p) attrs w = unicast_change attrs w p
  change_of ipv6_uc (ip_prefix p) attrs w = unicast_change attrs w p
  change_of ipv4_mpls (labelled p ls) attrs w = labelled_change attrs w p ls
  change_of ipv6_mpls (labelled p ls) attrs w = labelled_change attrs w p ls
  change_of sr_policy_ipv4 (sr_policy endpoint) attrs w = policy_change attrs w endpoint
  change_of sr_policy_ipv6 (sr_policy endpoint) attrs w = policy_change attrs w endpoint
  change_of _ _ attrs w = nothing

  -- What the paths, one after the other, leave at a prefix.
  unfoldable pub left_at : Prefix → Option FibEntry → List BestPath → Option FibEntry
  left_at q old [] = old
  left_at q old (p ∷ ps) =
      left_at q (after q old (change_of p.family p.nlri p.attrs p.withdrawal)) ps

  -- The label table after a path, given what it was: an announcement of the router itself binds its
  -- first label to a pop, and nothing takes one out.
  unfoldable pub labelled_labels : Lfib → List Attribute → Bool → List ℕ → Lfib
  labelled_labels lfib attrs w [] = lfib
  labelled_labels lfib attrs w (l ∷ ls) =
      let nh = extract_next_hop attrs in
      if is_valid nh && (not w && nh == self) then LabelTable.add lfib (pop_entry l nh) else lfib

  unfoldable pub labels_after : Lfib → Family → Nlri → List Attribute → Bool → Lfib
  labels_after lfib ipv4_mpls (labelled p ls) attrs w = labelled_labels lfib attrs w ls
  labels_after lfib ipv6_mpls (labelled p ls) attrs w = labelled_labels lfib attrs w ls
  labels_after lfib _ _ attrs w = lfib
