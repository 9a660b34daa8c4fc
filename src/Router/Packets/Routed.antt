-- ===== src/Router/Packets/Routed.antt =====
-- What becomes of a packet for which the forwarding table gave an entry, or none, told without the
-- functions of the router.
use gouter.Base.{
  string_eq, nat_eq, ℕ, ◌+◌, ◌*◌, ◌≡◌, ◌⊎◌, refl, ◌≢◌, Bool, beq→eq, arith, true, false, List, [],
  ◌∷◌, map, Option, none, some, String, length, min, inl, inr, if◌then◌else◌, ◌==◌, ◌&&◌, not,
  Option-cases, Bool-cases,
}
use gouter.Base.Dict
use gouter.Netip.{Addr, is_valid}
use gouter.Transport.{Packet, packet_mpls}
use gouter.Mpls.Label.{label_max, push_labels}
use gouter.Mpls.Label.Stack.{pop_times, pop_times-push_labels, length-push_labels}
use gouter.Router.Fib.{FibEntry, FibAction, action_forward, action_push, action_local, lookup}
use gouter.Router.Nexthop.{resolve}
use gouter.Router.Packets.{
  Router, Transport, Outcome, dropped, injected, inject_failed, wrote, write_to, inject,
  transport_name, nic_name, forward_by_fib, route, deliver_local,
}
use gouter.Netstack.Manager.{inject_inbound}

-- The first of the names that is not empty; empty if all are.
pub first_named : List String → String
first_named [] = ""
first_named (name ∷ names) = let others = first_named names in if name == "" then others else name

first_named-hop :
    (name hop origin : String) (has_hop : Bool)
    → (let by_hop = if name == "" && has_hop then hop else name in
        if by_hop == "" && not (origin == "") then origin else by_hop)
      ≡ first_named (name ∷ (if has_hop then hop else "") ∷ origin ∷ [])
unfolding first_named
first_named-hop name hop origin true =
    ground (arith, beq→eq name "", beq→eq hop "", beq→eq origin "")
first_named-hop name hop origin false = ground (arith, beq→eq name "", beq→eq origin "")

first_named-nic :
    (name nic origin : String)
    → (let by_addr = if name == "" then nic else name in if by_addr == "" then origin else by_addr)
      ≡ first_named (name ∷ nic ∷ origin ∷ [])
unfolding first_named
first_named-nic name nic origin = ground (arith, beq→eq name "", beq→eq nic "", beq→eq origin "")

-- The packet under these labels, the first on top, each cut to the largest.
pub record IsPushed (pkt : Packet) (labels : List ℕ) (out : Packet) : Type 0 where
  pub kind : out.kind ≡ packet_mpls
  pub origin : out.transport ≡ pkt.transport
  pub size : length out.bytes ≡ 4 * length labels + length pkt.bytes
  pub stack :
      pop_times (length labels) out.bytes ≡ some (map (λ l. min l label_max) labels, pkt.bytes)

module _ {S : Type 0} (r : Router S) where
  -- Handed to the transport of the name, or dropped where there is none.
  abbrev pub IsWritten : String → Packet → Outcome → Type 0
  IsWritten name pkt out =
      ((Dict.lookup name r.transports ≡ none) × (out ≡ dropped))
      ⊎ ((t : Transport) × (Dict.lookup name r.transports ≡ some t) × (out ≡ wrote name pkt))

  -- Given to the NIC of the name, or refused where there is none.
  abbrev pub IsInjected : String → List ℕ → Outcome → Type 0
  IsInjected name bytes out =
      ((Dict.lookup name r.netstack.nics ≡ none) × (out ≡ inject_failed name))
      ⊎ ((Dict.lookup name r.netstack.nics ≢ none) × (out ≡ injected name bytes))

  -- The transport of the entry, else that of its next hop, if it has one, else the one that the
  -- packet came from.
  abbrev pub out_name : Packet → FibEntry → String
  out_name pkt e = first_named (
      e.transport
      ∷ (if is_valid e.next_hop then (resolve r.nexthop e.next_hop).0 else "")
      ∷ pkt.transport
      ∷ [])

  -- The transport of the entry, else the NIC of its next hop, else where the packet came from.
  abbrev pub local_name : Packet → FibEntry → String
  local_name pkt e = first_named (e.transport ∷ (r.nic_for_addr e.next_hop).0 ∷ pkt.transport ∷ [])

  -- By the action: given to the NIC whole, written as it is, or written under the entry's labels.
  abbrev pub ActsBy : FibAction → Packet → FibEntry → Outcome → Type 0
  ActsBy action_local pkt e out = IsInjected (local_name pkt e) pkt.bytes out
  ActsBy action_forward pkt e out = IsWritten (out_name pkt e) pkt out
  ActsBy action_push pkt e out =
      (q : Packet) × IsPushed pkt e.out_labels q × IsWritten (out_name pkt e) q out

  -- Dropped with no entry, else by the entry's action.
  abbrev pub IsRouted : Packet → Option FibEntry → Outcome → Type 0
  IsRouted pkt none out = out ≡ dropped
  IsRouted pkt (some e) out = ActsBy e.action pkt e out

  write_to-IsWritten : (name : String) (pkt : Packet) → IsWritten name pkt (write_to r name pkt)
  unfolding write_to
  write_to-IsWritten name pkt = elim (Option-cases (Dict.lookup name r.transports)) [
    | inl e ↦ inl (e, rw (e, write_to) refl)
    | inr (t, e) ↦ inr (t, e, rw (e, write_to) refl)
  ]

  inject-IsInjected : (name : String) (bytes : List ℕ) → IsInjected name bytes (inject r name bytes)
  unfolding inject inject_inbound
  inject-IsInjected name bytes = elim (Option-cases (Dict.lookup name r.netstack.nics)) [
    | inl e ↦ inl (e, rw (inject, inject_inbound, e) refl)
    | inr (ep, e) ↦ inr (λ h. cc (e, h), rw (inject, inject_inbound, e) refl)
  ]

  transport_name-first : (pkt : Packet) (e : FibEntry) → transport_name r pkt e ≡ out_name pkt e
  unfolding transport_name
  transport_name-first pkt e =
      first_named-hop e.transport (resolve r.nexthop e.next_hop).0 pkt.transport
        (is_valid e.next_hop)

  nic_name-first : (pkt : Packet) (e : FibEntry) → nic_name r pkt e ≡ local_name pkt e
  unfolding nic_name
  nic_name-first pkt e = first_named-nic e.transport (r.nic_for_addr e.next_hop).0 pkt.transport

  pushed :
      (pkt : Packet) (labels : List ℕ)
      → IsPushed pkt labels
          (record pkt { bytes = push_labels pkt.bytes labels; kind = packet_mpls })
  pushed pkt labels = record {
    kind = refl;
    origin = refl;
    size = length-push_labels pkt.bytes labels;
    stack = pop_times-push_labels pkt.bytes labels;
  }

  forward_by_fib-ActsBy :
      (pkt : Packet) (e : FibEntry) (action : FibAction)
      → e.action ≡ action
      → ActsBy action pkt e (forward_by_fib r pkt e)
  unfolding forward_by_fib
  forward_by_fib-ActsBy pkt e action_local a =
      rw (a, forward_by_fib, nic_name-first pkt e) (inject-IsInjected _ _)
  forward_by_fib-ActsBy pkt e action_forward a =
      rw (a, forward_by_fib, transport_name-first pkt e) (write_to-IsWritten _ _)
  forward_by_fib-ActsBy pkt e action_push a = (
    record pkt { bytes = push_labels pkt.bytes e.out_labels; kind = packet_mpls },
    pushed pkt e.out_labels,
    rw (a, forward_by_fib, transport_name-first pkt e) (write_to-IsWritten _ _),
  )

  -- A packet goes as the entry says that the lookup of its destination finds.
  pub route-IsRouted :
      (pkt : Packet) (dst : Addr) (found : Option FibEntry)
      → lookup r.fib dst ≡ found
      → IsRouted pkt found (route r pkt dst)
  unfolding route
  route-IsRouted pkt dst none e = rw (e, route) refl
  route-IsRouted pkt dst (some x) e = rw (e, route) (forward_by_fib-ActsBy pkt x x.action refl)

  -- Dropped where no NIC has the address, else given to the NIC that has.
  abbrev pub IsDelivered : Packet → Addr → Outcome → Type 0
  IsDelivered pkt dst out =
      (((r.nic_for_addr dst).1 ≡ false) × (out ≡ dropped))
      ⊎ (((r.nic_for_addr dst).1 ≡ true) × IsInjected (r.nic_for_addr dst).0 pkt.bytes out)

  pub deliver_local-IsDelivered :
      (pkt : Packet) (dst : Addr) → IsDelivered pkt dst (deliver_local r pkt dst)
  unfolding deliver_local
  deliver_local-IsDelivered pkt dst = elim (Bool-cases (r.nic_for_addr dst).1) [
    | inl ok ↦ inr (ok, rw (deliver_local, ok) (inject-IsInjected _ _))
    | inr ko ↦ inl (ko, rw (deliver_local, ko) refl)
  ]
