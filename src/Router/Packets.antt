-- ===== src/Router/Packets.antt =====
-- internal/router/router.go: the router's state, and what it does with a packet. The handlers only
-- read the state, so each returns the one thing that it does.
pub mod Ends
pub mod Outcomes
pub mod InRange
pub mod Routed
pub mod Ip
pub mod Bare
pub mod Readers
pub mod Labels
pub mod Local
pub mod Pops
pub mod Sent
use gouter.Base.{
  string_eq, ℕ, zero, suc, ◌+◌, ◌-◌, Bool, true, false, ◌&&◌, ◌||◌, not, List, [], ◌∷◌, Option,
  none, some, String, ◌==◌, nat_eq, ltb, if◌then◌else◌, length, get_or, set, take, drop, u8, shr,
}
use gouter.Base.Dict
use gouter.Netip.{Addr, v4, v6, invalid, is_valid, addr_from_slice}
use gouter.Transport.{Packet, PacketType, packet_ip, packet_mpls}
use gouter.Mpls.Label.{pop_label, swap_label, push_labels, has_label}
use gouter.Mpls.Lfib.{Lfib, LfibEntry, LabelOp, op_pop, op_swap, op_push, op_php, lookup_label}
use gouter.Netstack.Manager.{Manager, Calls, inject_inbound, is_local_address, nic_name_for_address}
use gouter.Router.Header.{byte_at, read_header, decrement, refresh, detect_packet_type}
use gouter.Router.Fib.{Fib, FibEntry, FibAction, action_forward, action_push, action_local, lookup}
use gouter.Router.Nexthop.{NexthopResolver, resolve}

-- `transport.Transport`, as far as the router sees it.
pub record Transport : Type 0 where
  pub name : String
  pub mtu : ℕ

-- `S` is the state of the embedded stack.
pub record Router (S : Type 0) : Type 0 where
  pub transports : List (String × Transport)
  pub fib : Fib
  pub nexthop : NexthopResolver
  pub netstack : Manager S
  pub lfib : Option Lfib
  pub processor : List ℕ → Option (List ℕ)
  pub is_local : Addr → Bool
  pub nic_for_addr : Addr → String × Bool

-- What became of a packet: dropped, given to a NIC, refused by the netstack, handed to the `Write`
-- of a transport, an index out of range, or no fuel left.
pub data Outcome : Type 0 where
  dropped : Outcome
  injected : String → List ℕ → Outcome
  inject_failed : String → Outcome
  wrote : String → Packet → Outcome
  panicked : Outcome
  out_of_fuel : Outcome

-- `NullProcessor.Process`.
unfoldable pub null_process : List ℕ → Option (List ℕ)
null_process pkt = some pkt

module _ {S : Type 0} where
  unfoldable pub new_router : Calls S → Fib → NexthopResolver → Manager S → Option Lfib → Router S
  new_router calls fib nexthop ns lfib = record {
    transports = [];
    fib = fib;
    nexthop = nexthop;
    netstack = ns;
    lfib = lfib;
    processor = null_process;
    is_local = is_local_address calls ns;
    nic_for_addr = nic_name_for_address ns;
  }

  unfoldable pub add_transport : Router S → Transport → Router S
  add_transport r t = record r { transports = Dict.insert t.name t r.transports }

  unfoldable pub remove_transport : Router S → String → Router S
  remove_transport r name = record r { transports = Dict.delete name r.transports }

  pub set_processor : Router S → (List ℕ → Option (List ℕ)) → Router S
  set_processor r p = record r { processor = p }

  module _ (r : Router S) where
    -- The transport of a name, if there is one, is given the packet; its error is only logged.
    unfoldable pub write_to : String → Packet → Outcome
    write_to name pkt = elim (Dict.lookup name r.transports) [
      | none ↦ dropped
      | some t ↦ wrote name pkt
    ]

    unfoldable pub inject : String → List ℕ → Outcome
    inject nic_name bytes = elim (inject_inbound r.netstack nic_name bytes) [
      | none ↦ inject_failed nic_name
      | some _ ↦ injected nic_name bytes
    ]

    -- The transport's name, from the entry, else by the next hop, else the one it came from.
    unfoldable pub transport_name : Packet → FibEntry → String
    transport_name pkt entry =
        let by_nexthop =
          if entry.transport == "" && is_valid entry.next_hop
          then (resolve r.nexthop entry.next_hop).0
          else entry.transport in
        if by_nexthop == "" && not (pkt.transport == "") then pkt.transport else by_nexthop

    unfoldable pub nic_name : Packet → FibEntry → String
    nic_name pkt entry =
        let by_addr =
          if entry.transport == "" then (r.nic_for_addr entry.next_hop).0 else entry.transport in
        if by_addr == "" then pkt.transport else by_addr

    unfoldable pub forward_by_fib : Packet → FibEntry → Outcome
    forward_by_fib pkt entry = elim entry.action [
      | action_local ↦ inject (nic_name pkt entry) pkt.bytes
      | action_forward ↦ write_to (transport_name pkt entry) pkt
      | action_push ↦
          write_to (transport_name pkt entry)
            (record pkt { bytes = push_labels pkt.bytes entry.out_labels; kind = packet_mpls })
    ]

    unfoldable pub route : Packet → Addr → Outcome
    route pkt dst = elim (lookup r.fib dst) [
      | none ↦ dropped
      | some entry ↦ forward_by_fib pkt entry
    ]

    -- From the TTL on: the packet is not for this router.
    unfoldable pub forward_ip : Packet → ℕ → Addr → ℕ → Outcome
    forward_ip pkt version dst ttl_idx = elim (decrement ttl_idx pkt.bytes) [
      | none ↦ panicked
      | some bytes ↦
          if byte_at bytes ttl_idx == 0
          then dropped
          else elim (if version == 4 then refresh bytes else some bytes) [
            | none ↦ panicked
            | some refreshed ↦ route (record pkt { bytes = refreshed }) dst
          ]
    ]

    unfoldable pub deliver_local : Packet → Addr → Outcome
    deliver_local pkt dst =
        let (name, ok) = r.nic_for_addr dst in if ok then inject name pkt.bytes else dropped

    unfoldable pub handle_ip_packet : Packet → Outcome
    handle_ip_packet pkt =
        if ltb (length pkt.bytes) 20 then dropped else elim (read_header pkt.bytes) [
          | none ↦ panicked
          | some none ↦ dropped
          | some (some (version, dst, ttl_idx)) ↦
              if r.is_local dst then deliver_local pkt dst else forward_ip pkt version dst ttl_idx
        ]

    unfoldable pub swap_and_write : Packet → LfibEntry → Outcome
    swap_and_write pkt entry = elim entry.out_labels [
      | [] ↦ panicked
      | label ∷ _ ↦ elim (swap_label pkt.bytes label) [
        | none ↦ dropped
        | some bytes ↦ write_to entry.transport (record pkt { bytes = bytes })
      ]
    ]

    -- The switch on the operation. `again` is `handlePacket`.
    unfoldable pub apply_entry : (Packet → Outcome) → Packet → List ℕ → LfibEntry → Outcome
    apply_entry again pkt payload entry =
        let inner : Packet = record pkt { kind = detect_packet_type payload; bytes = payload } in
        elim entry.op [
          | op_pop ↦ again inner
          | op_php ↦ again inner
          | op_swap ↦ swap_and_write pkt entry
          | op_push ↦
              write_to entry.transport (record pkt { bytes = push_labels payload entry.out_labels })
        ]

    unfoldable pub handle_mpls_packet : (Packet → Outcome) → Packet → Outcome
    handle_mpls_packet again pkt = elim r.lfib [
      | none ↦ dropped
      | some lfib ↦ elim (pop_label pkt.bytes) [
        | none ↦ dropped
        | some (label, payload) ↦ elim (lookup_label lfib label) [
          | none ↦ dropped
          | some entry ↦ apply_entry again pkt payload entry
        ]
      ]
    ]

    -- `handlePacket`, with fuel for the packets inside MPLS packets.
    unfoldable pub handle_packet : ℕ → Packet → Outcome
    handle_packet zero pkt = out_of_fuel
    handle_packet (suc n) pkt = elim (r.processor pkt.bytes) [
      | none ↦ dropped
      | some bytes ↦ elim pkt.kind [
        | packet_ip ↦ handle_ip_packet (record pkt { bytes = bytes })
        | packet_mpls ↦ handle_mpls_packet (handle_packet n) (record pkt { bytes = bytes })
      ]
    ]

    -- Each packet inside another is four bytes shorter, so its length is fuel enough.
    unfoldable pub handle : Packet → Outcome
    handle pkt = handle_packet (suc (length pkt.bytes)) pkt

    pub forward_from_netstack : Packet → Outcome
    forward_from_netstack pkt = handle pkt

    -- What the loop of a transport's reader meets: a packet, the end of the context, or of the
    -- channel.
    unfoldable pub read_packets : List (Option Packet) → List Outcome
    read_packets [] = []
    read_packets (none ∷ events) = []
    read_packets (some pkt ∷ events) = handle pkt ∷ read_packets events

    unfoldable pub run_transport_reader : String → List (Option Packet) → List Outcome
    run_transport_reader name events = elim (Dict.lookup name r.transports) [
      | none ↦ []
      | some t ↦ read_packets events
    ]
