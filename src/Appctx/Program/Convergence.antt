-- ===== src/Appctx/Program/Convergence.antt =====
-- What the router does depends on what its tables answer, not on how they came to hold it.
use gouter.Base.{
  string_eq, nat_eq, ℕ, zero, suc, ◌≡◌, refl, sym, ap, subst, ◌∙◌, Bool, List, Option, none, some,
  String, Option-cases, Bool-cases, inl, inr, if◌then◌else◌, ◌==◌, ◌&&◌, not, length, ltb, ltb→lt,
  ltb→le, ◌≤◌,
}
use gouter.Config.{Config}
use gouter.Netip.{Addr, Prefix, is_valid}
use gouter.Transport.{Packet, PacketType, packet_ip, packet_mpls}
use gouter.Mpls.Lfib.{Lfib, LfibEntry, LabelOp, op_pop, op_swap, op_push, op_php, lookup_label}
use gouter.Netstack.Manager.{Calls}
use gouter.Router.Fib.{
  Fib, FibEntry, FibAction, action_forward, action_push, action_local, has_exact, lookup,
}
use gouter.Router.Fib.Order.{IsCanonical}
use gouter.Router.Fib.Table.{IsValid}
use gouter.Router.Fib.Extensional.{lookup-SameMap}
use gouter.Router.Nexthop.{resolve}
use gouter.Router.Header.{byte_at, decrement_at}
use gouter.Mpls.Label.{pop_label}
use gouter.Router.Packets.{
  Router, Outcome, dropped, transport_name, nic_name, write_to, inject, forward_by_fib, route,
  forward_ip, deliver_local, handle_ip_packet, swap_and_write, apply_entry, handle_mpls_packet,
  handle_packet, handle,
}
use gouter.Router.Packets.Sent.{IsHeader, IsHeader-bound, read_header_total}
use gouter.Router.Packets.InRange.{forward_ip_in_range, handle_short, handle_unread, handle_read}
use gouter.Bgp.Paths.{resolve_transport}
use gouter.Bgp.Paths.Bindings.{bound_at}
use gouter.Bgp.Paths.Changes.{left_at}
use gouter.Appctx.Program.{Program, start, with_tables, Event, run}
use gouter.Appctx.Program.Steps.{IsSound, paths_of}
use gouter.Appctx.Program.Safety.{start-IsSafe, run-start}

module _ {S : Type 0} (r : Router S) (f g : Fib) (l l' : Lfib)
    (same : (a : Addr) → lookup f a ≡ lookup g a) where
  abbrev left : Router S
  left = with_tables r f l

  abbrev right : Router S
  right = with_tables r g l'

  resolve-same : (a : Addr) → resolve left.nexthop a ≡ resolve right.nexthop a
  unfolding resolve
  resolve-same a = rw (same a) refl

  transport_name-same :
      (pkt : Packet) (e : FibEntry) → transport_name left pkt e ≡ transport_name right pkt e
  unfolding transport_name
  transport_name-same pkt e =
      ap
        (λ by.
          let by_nexthop = if e.transport == "" && is_valid e.next_hop then by.0 else e.transport in
          if by_nexthop == "" && not (pkt.transport == "") then pkt.transport else by_nexthop)
        (resolve-same e.next_hop)

  forward_by_fib-same :
      (pkt : Packet) (e : FibEntry) (action : FibAction)
      → e.action ≡ action
      → forward_by_fib left pkt e ≡ forward_by_fib right pkt e
  unfolding forward_by_fib write_to inject nic_name
  forward_by_fib-same pkt e action_local a = rw (a, forward_by_fib) refl
  forward_by_fib-same pkt e action_forward a =
      rw (a, forward_by_fib, transport_name-same pkt e) refl
  forward_by_fib-same pkt e action_push a = rw (a, forward_by_fib, transport_name-same pkt e) refl

  route-same : (pkt : Packet) (dst : Addr) → route left pkt dst ≡ route right pkt dst
  unfolding route
  route-same pkt dst = elim (Option-cases (lookup f dst)) [
    | inl e ↦ rw (e, route, sym (same dst) ∙ e) refl
    | inr (entry, e) ↦
        rw (e, route, sym (same dst) ∙ e) (forward_by_fib-same pkt entry entry.action refl)
  ]

  forward_ip-same :
      (pkt : Packet) (version : ℕ) (dst : Addr) (ttl_idx : ℕ)
      → IsHeader pkt.bytes version dst ttl_idx
      → forward_ip left pkt version dst ttl_idx ≡ forward_ip right pkt version dst ttl_idx
  forward_ip-same pkt version dst ttl_idx head =
      let (n, t) = IsHeader-bound pkt.bytes head in
      let bytes = decrement_at ttl_idx pkt.bytes in
      forward_ip_in_range left pkt version dst ttl_idx n t
      ∙ ap (λ out. if byte_at bytes ttl_idx == 0 then dropped else out) (route-same _ dst)
      ∙ sym (forward_ip_in_range right pkt version dst ttl_idx n t)

  handle_ip_packet-same : (pkt : Packet) → handle_ip_packet left pkt ≡ handle_ip_packet right pkt
  unfolding deliver_local inject
  handle_ip_packet-same pkt = elim (Bool-cases (ltb (length pkt.bytes) 20)) [
    | inl short ↦
        let h = ltb→lt _ _ short in handle_short left pkt h ∙ sym (handle_short right pkt h)
    | inr long ↦
        let n : 20 ≤ length pkt.bytes = ltb→le _ _ long in
        elim (read_header_total pkt.bytes n) [
          | inl (bad, e) ↦ handle_unread left pkt n e ∙ sym (handle_unread right pkt n e)
          | inr (version, dst, ttl_idx, head, e) ↦
              handle_read left pkt version ttl_idx dst n e
              ∙ ap (λ out. if r.is_local dst then deliver_local left pkt dst else out)
                  (forward_ip-same pkt version dst ttl_idx head)
              ∙ sym (handle_read right pkt version ttl_idx dst n e)
        ]
  ]

  module _ (labels : (k : ℕ) → lookup_label l k ≡ lookup_label l' k) where
    apply_entry-same :
        (again again' : Packet → Outcome) (pkt : Packet) (payload : List ℕ) (e : LfibEntry)
        → ((q : Packet) → again q ≡ again' q)
        → (op : LabelOp) → e.op ≡ op
        → apply_entry left again pkt payload e ≡ apply_entry right again' pkt payload e
    unfolding apply_entry swap_and_write write_to
    apply_entry-same again again' pkt payload e h op_pop o = rw (o, apply_entry) (h _)
    apply_entry-same again again' pkt payload e h op_php o = rw (o, apply_entry) (h _)
    apply_entry-same again again' pkt payload e h op_swap o = rw (o, apply_entry) refl
    apply_entry-same again again' pkt payload e h op_push o = rw (o, apply_entry) refl

    handle_mpls_packet-same :
        (again again' : Packet → Outcome) (pkt : Packet)
        → ((q : Packet) → again q ≡ again' q)
        → handle_mpls_packet left again pkt ≡ handle_mpls_packet right again' pkt
    unfolding handle_mpls_packet
    handle_mpls_packet-same again again' pkt h = elim (Option-cases (pop_label pkt.bytes)) [
      | inl e ↦ rw (e, handle_mpls_packet) refl
      | inr ((label, payload), e) ↦ elim (Option-cases (lookup_label l label)) [
        | inl gone ↦ rw (e, handle_mpls_packet, gone, sym (labels label) ∙ gone) refl
        | inr (entry, found) ↦
            rw (e, handle_mpls_packet, found, sym (labels label) ∙ found)
              (apply_entry-same again again' pkt payload entry h entry.op refl)
      ]
    ]

    by_kind :
        (again again' : Packet → Outcome) (pkt : Packet)
        → ((q : Packet) → again q ≡ again' q)
        → (kind : PacketType)
        → (elim kind as (λ _. Outcome) [
          | packet_ip ↦ handle_ip_packet left pkt
          | packet_mpls ↦ handle_mpls_packet left again pkt
        ])
          ≡ (elim kind as (λ _. Outcome) [
            | packet_ip ↦ handle_ip_packet right pkt
            | packet_mpls ↦ handle_mpls_packet right again' pkt
          ])
    by_kind again again' pkt h packet_ip = handle_ip_packet-same pkt
    by_kind again again' pkt h packet_mpls = handle_mpls_packet-same again again' pkt h

    handle_packet-same :
        (n : ℕ) (pkt : Packet) → handle_packet left n pkt ≡ handle_packet right n pkt
    unfolding handle_packet
    handle_packet-same zero pkt = refl
    handle_packet-same (suc n) pkt = elim (Option-cases (r.processor pkt.bytes)) [
      | inl e ↦ rw (e, handle_packet) refl
      | inr (bytes, e) ↦
          rw (e, handle_packet)
            (by_kind (handle_packet left n) (handle_packet right n) (record pkt { bytes = bytes })
              (handle_packet-same n) pkt.kind)
    ]

    handle-same : (pkt : Packet) → handle left pkt ≡ handle right pkt
    unfolding handle
    handle-same pkt = handle_packet-same (suc (length pkt.bytes)) pkt

-- A router handles every packet alike with two pairs of tables that answer alike: the forwarding
-- tables valid, with the same entry or none at every prefix and no two routes of one length and one
-- network, and the label tables with the same entry or none at every label.
pub handle-with_tables :
    {S : Type 0} (r : Router S) (f g : Fib) (l l' : Lfib) (pkt : Packet)
    → IsValid f
    → IsValid g
    → IsCanonical f.routes
    → ((q : Prefix) → has_exact f q ≡ has_exact g q)
    → ((k : ℕ) → lookup_label l k ≡ lookup_label l' k)
    → handle (with_tables r f l) pkt ≡ handle (with_tables r g l') pkt
handle-with_tables r f g l l' pkt v w c routes labels =
    handle-same r f g l l' (λ a. lookup-SameMap f g a v w c routes) labels pkt

module _ {S : Type 0} (calls : Calls S) (stack : S) (cfg : Config) (router_id : String)
    (resolve_nh : Option (Addr → String × Bool)) (parse_addr : String → Option Addr)
    (self : Addr) where
  -- What the best paths of a run from the start leave at a prefix.
  abbrev pub left_by : List Event → Prefix → Option FibEntry
  left_by es q =
      left_at self (resolve_transport (start calls stack cfg router_id resolve_nh).speaker) q none
        (paths_of es)

  -- Where a run from the start ends, as `run-start` tells.
  pub ended :
      (es : List Event) (p : Program S) (outs : List Outcome)
      → parse_addr router_id ≡ some self
      → run calls parse_addr (start calls stack cfg router_id resolve_nh) es ≡ some (p, outs)
      → IsSound p
        × ((q : Prefix) → has_exact p.router.fib q ≡ left_by es q)
        × ((k : ℕ) → lookup_label p.speaker.lfib k ≡ bound_at self k none (paths_of es))
  ended es p outs known e =
      let safe = start-IsSafe calls stack cfg router_id resolve_nh parse_addr self es known in
      let (p0, outs0, returns, ends, valid, pops, left, bound) =
        run-start calls stack cfg router_id resolve_nh parse_addr self es known in
      let sound_there : safe.after ≡ p = cc (safe.returns, e) in
      let same : p0 ≡ p = cc (returns, e) in
      (
        subst IsSound sound_there safe.sound,
        subst (λ x. (q : Prefix) → has_exact x.router.fib q ≡ left_by es q) same left,
        subst (λ x. (k : ℕ) → lookup_label x.speaker.lfib k ≡ bound_at self k none (paths_of es))
            same bound,
      )
