-- ===== src/Bgp/Paths/Effects.antt =====
-- What a run of best paths leaves in the forwarding table, prefix by prefix.
use gouter.Base.{
  nat_eq, string_eq, ℕ, ◌≡◌, refl, ap, sym, subst, ◌∙◌, Bool, List, [], ◌∷◌, ◌++◌, Option, none,
  some, String, ◌==◌, if◌then◌else◌, arith, not, ◌&&◌,
}
use gouter.Netip.{Addr, invalid, addr_eq, is_valid, Prefix, prefix_eq}
use gouter.Mpls.Lfib.{Lfib}
use gouter.Mpls.Lfib as LabelTable
use gouter.Router.Fib.{Fib, FibEntry, has_exact}
use gouter.Router.Fib.Table.{IsValid, add-remove-IsValid, has_exact-add, has_exact-remove}
use gouter.Bgp.Paths.{
  Family, ipv4_uc, ipv6_uc, ipv4_mpls, ipv6_mpls, sr_policy_ipv4, sr_policy_ipv6, Nlri, ip_prefix,
  labelled, sr_policy, Attribute, BestPath, Speaker, extract_next_hop, valid_next_hop,
  extract_unicast_info, extract_labelled_info, resolve_transport, handle_unicast_path, push_entry,
  pop_entry, learn_label, handle_labelled_path, handle_sr_policy, handle_path, handle_best_path,
}
use gouter.Bgp.Paths.Changes.{
  Change, nothing, learn, forget, after, apply_change, says, unicast_change, labelled_change,
  policy_change, change_of, left_at, labelled_labels, labels_after,
}

abbrev path_of : Family → Nlri → List Attribute → Bool → BestPath
path_of f n attrs w = record { family = f; nlri = n; attrs = attrs; withdrawal = w }

-- A speaker after a change of its forwarding table, with this label table; its configuration is the
-- same.
pub record Follows (s : Speaker) (c : Change) (l : Lfib) (s' : Speaker) : Type 0 where
  table : s'.fib ≡ apply_change s.fib c
  pub labels : s'.lfib ≡ l
  pub same_id : s'.router_id ≡ s.router_id
  same_nh : s'.resolve_nh ≡ s.resolve_nh

apply_change-IsValid : (f : Fib) (c : Change) → IsValid f → IsValid (apply_change f c)
unfolding apply_change
apply_change-IsValid f nothing v = v
apply_change-IsValid f (learn e) v = (add-remove-IsValid f e e.prefix v).0
apply_change-IsValid f (forget p) v = (add-remove-IsValid f (push_entry p invalid [] "") p v).1

has_exact-apply_change :
    (f : Fib) (c : Change) (q : Prefix)
    → IsValid f
    → has_exact (apply_change f c) q ≡ after q (has_exact f q) c
unfolding apply_change after
has_exact-apply_change f nothing q v = refl
has_exact-apply_change f (learn e) q v = has_exact-add f e q v
has_exact-apply_change f (forget p) q v = has_exact-remove f p q v

handle_unicast-Follows :
    (self : Addr) (s : Speaker) (p : BestPath) (q : Prefix)
    → p.nlri ≡ ip_prefix q
    → Follows s
        (unicast_change self (resolve_transport s) p.attrs p.withdrawal q)
        s.lfib
        (handle_unicast_path s p)
unfolding unicast_change handle_unicast_path extract_unicast_info valid_next_hop says apply_change
handle_unicast-Follows self s p q e = record {
  table = ground (arith, e);
  labels = ground (arith, e);
  same_id = ground (arith, e);
  same_nh = ground (arith, e);
}

handle_policy-Follows :
    (self : Addr) (s : Speaker) (p : BestPath) (endpoint : List ℕ)
    → p.nlri ≡ sr_policy endpoint
    → Follows s
        (policy_change self (resolve_transport s) p.attrs p.withdrawal endpoint)
        s.lfib
        (handle_sr_policy s p)
unfolding policy_change handle_sr_policy says apply_change
handle_policy-Follows self s p endpoint e = record {
  table = ground (arith, e);
  labels = ground (arith, e);
  same_id = ground (arith, e);
  same_nh = ground (arith, e);
}

-- The handler of a path returns a speaker that follows the change of the path.
module _ (parse_addr : String → Option Addr) (self : Addr) (s : Speaker) where
  unfoldable pub Handled : Change → Lfib → Option Speaker → Type 0
  Handled c l r = (s' : Speaker) × (r ≡ some s') × Follows s c l s'

  handle_labelled-Handled :
      (p : BestPath) (q : Prefix) (ls : List ℕ)
      → parse_addr s.router_id ≡ some self
      → p.nlri ≡ labelled q ls
      → Handled
          (labelled_change self (resolve_transport s) p.attrs p.withdrawal q ls)
          (labelled_labels self (resolve_transport s) s.lfib p.attrs p.withdrawal ls)
          (handle_labelled_path parse_addr s p)
  unfolding labelled_labels labelled_change handle_labelled_path learn_label extract_labelled_info
      valid_next_hop says apply_change Handled
  handle_labelled-Handled p q [] known e =
      (s, ground (arith, e), record { table = refl; labels = refl; same_id = refl; same_nh = refl })
  handle_labelled-Handled p q (l ∷ ls) known e =
      let nh = extract_next_hop p.attrs in
      let own = is_valid nh && (not p.withdrawal && nh == self) in
      let s' : Speaker = record s {
        fib =
            apply_change s.fib
              (labelled_change self (resolve_transport s) p.attrs p.withdrawal q (l ∷ ls));
        lfib = if own then LabelTable.add s.lfib (pop_entry l nh) else s.lfib;
      } in
      (
        s',
        ground (arith, e, known),
        record { table = refl; labels = refl; same_id = refl; same_nh = refl },
      )

  pub handle_path-Handled :
      (f : Family) (n : Nlri) (attrs : List Attribute) (w : Bool)
      → parse_addr s.router_id ≡ some self
      → Handled
          (change_of self (resolve_transport s) f n attrs w)
          (labels_after self (resolve_transport s) s.lfib f n attrs w)
          (handle_path parse_addr s (path_of f n attrs w))
  unfolding labels_after change_of handle_path handle_unicast_path extract_unicast_info
      handle_labelled_path extract_labelled_info handle_sr_policy Handled apply_change
  handle_path-Handled ipv4_uc (ip_prefix q) attrs w known =
      (_, refl, handle_unicast-Follows self s (path_of ipv4_uc (ip_prefix q) attrs w) q refl)
  handle_path-Handled ipv6_uc (ip_prefix q) attrs w known =
      (_, refl, handle_unicast-Follows self s (path_of ipv6_uc (ip_prefix q) attrs w) q refl)
  handle_path-Handled ipv4_mpls (labelled q ls) attrs w known =
      handle_labelled-Handled (path_of ipv4_mpls (labelled q ls) attrs w) q ls known refl
  handle_path-Handled ipv6_mpls (labelled q ls) attrs w known =
      handle_labelled-Handled (path_of ipv6_mpls (labelled q ls) attrs w) q ls known refl
  handle_path-Handled sr_policy_ipv4 (sr_policy endpoint) attrs w known = (
    _,
    refl,
    handle_policy-Follows self s (path_of sr_policy_ipv4 (sr_policy endpoint) attrs w) endpoint
        refl,
  )
  handle_path-Handled sr_policy_ipv6 (sr_policy endpoint) attrs w known = (
    _,
    refl,
    handle_policy-Follows self s (path_of sr_policy_ipv6 (sr_policy endpoint) attrs w) endpoint
        refl,
  )
  handle_path-Handled _ _ attrs w known =
      (s, refl, record { table = refl; labels = refl; same_id = refl; same_nh = refl })

pub resolve_transport-same :
    (s s' : Speaker) → s'.resolve_nh ≡ s.resolve_nh → resolve_transport s' ≡ resolve_transport s
unfolding resolve_transport
resolve_transport-same s s' e =
    ap (λ r nh. elim r as (λ _. String) [ none ↦ "" | some f ↦ (f nh).0 ]) e

module _ (parse_addr : String → Option Addr) (self : Addr) where
  -- Where the table is valid and the router's own id parses, a run of best paths never panics, keeps
  -- the table valid, and leaves at each prefix what the last change to it said: the entry of an
  -- announcement, nothing after a withdrawal, and what was there before if no path changed it.
  pub handle_best_path-left_at :
      (s : Speaker) (ps : List BestPath) (t : Addr → String)
      → resolve_transport s ≡ t
      → IsValid s.fib
      → parse_addr s.router_id ≡ some self
      → (s' : Speaker) × (handle_best_path parse_addr s ps ≡ some s')
        × IsValid s'.fib
        × ((q : Prefix) → has_exact s'.fib q ≡ left_at self t q (has_exact s.fib q) ps)
  unfolding handle_best_path left_at Handled
  handle_best_path-left_at s [] t same v known = (s, refl, v, λ q. refl)
  handle_best_path-left_at s (p ∷ ps) t same v known =
      let c = change_of self t p.family p.nlri p.attrs p.withdrawal in
      let (s1, step, fol) =
        subst
          (λ t'.
            Handled parse_addr self s (change_of self t' p.family p.nlri p.attrs p.withdrawal)
              (labels_after self t' s.lfib p.family p.nlri p.attrs p.withdrawal)
              (handle_path parse_addr s p))
          same (handle_path-Handled parse_addr self s p.family p.nlri p.attrs p.withdrawal known) in
      let v1 : IsValid s1.fib = subst IsValid (sym fol.table) (apply_change-IsValid s.fib c v) in
      let (s', done, v', left) =
        handle_best_path-left_at s1 ps t (resolve_transport-same s s1 fol.same_nh ∙ same) v1
          (ap parse_addr fol.same_id ∙ known) in
      let here : (q : Prefix) → has_exact s1.fib q ≡ after q (has_exact s.fib q) c =
        λ q. ap (λ f. has_exact f q) fol.table ∙ has_exact-apply_change s.fib c q v in
      (
        s',
        rw (step, handle_best_path) done,
        v',
        λ q. left q ∙ ap (λ old. left_at self t q old ps) (here q),
      )

  -- The configuration of the speaker stays as it is.
  pub handle_best_path-config :
      (s : Speaker) (ps : List BestPath) (s' : Speaker)
      → parse_addr s.router_id ≡ some self
      → handle_best_path parse_addr s ps ≡ some s'
      → (s'.router_id ≡ s.router_id) × (s'.resolve_nh ≡ s.resolve_nh)
  unfolding handle_best_path Handled
  handle_best_path-config s [] s' known e = (sym (ap router_id_of e), sym (ap resolve_nh_of e))
    where
      router_id_of : Option Speaker → String
      router_id_of none = s.router_id
      router_id_of (some x) = x.router_id

      resolve_nh_of : Option Speaker → Option (Addr → String × Bool)
      resolve_nh_of none = s.resolve_nh
      resolve_nh_of (some x) = x.resolve_nh
  handle_best_path-config s (p ∷ ps) s' known e =
      let (s1, step, fol) =
        handle_path-Handled parse_addr self s p.family p.nlri p.attrs p.withdrawal known in
      let rest : handle_best_path parse_addr s1 ps ≡ some s' =
        sym (rw (step, handle_best_path) refl) ∙ e in
      let (id, nh) = handle_best_path-config s1 ps s' (ap parse_addr fol.same_id ∙ known) rest in
      (id ∙ fol.same_id, nh ∙ fol.same_nh)

module _ (self : Addr) (t : Addr → String) (q : Prefix) where
  pub left_at-append :
      (old : Option FibEntry) (ps qs : List BestPath)
      → left_at self t q old (ps ++ qs) ≡ left_at self t q (left_at self t q old ps) qs
  unfolding left_at
  left_at-append old [] qs = refl
  left_at-append old (p ∷ ps) qs =
      left_at-append (after q old (change_of self t p.family p.nlri p.attrs p.withdrawal)) ps qs
