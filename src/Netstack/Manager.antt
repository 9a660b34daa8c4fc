-- ===== src/Netstack/Manager.antt =====
-- internal/netstack/stack.go: the interfaces (NICs) of the embedded stack. The stack itself is
-- gVisor's: its state is a type `S`, and its calls are the fields of `Calls`.
pub mod Names
pub mod Added
use gouter.Base.{
  nat_eq, string_eq, ℕ, ◌+◌, ◌-◌, ◌%◌, ◌/◌, ◌^◌, Bool, true, false, ◌&&◌, ◌||◌, not, List, [], ◌∷◌,
  Option, none, some, String, ◌==◌, ltb, if◌then◌else◌, length, get_or, u8, shr,
}
use gouter.Base.Dict.{lookup, insert, delete}
use gouter.Netip.{
  Addr, invalid, v4, v6, Prefix, prefix_eq, addr_eq, is_valid, is_4, is_6, is_4_in_6, contains,
  masked_addr, prefix_from,
}

pub data Protocol : Type 0 where
  ipv4 ipv6 : Protocol

pub record NicConfig : Type 0 where
  pub name : String
  pub address : Prefix
  pub mtu : ℕ

-- A link endpoint, by the number of its NIC.
pub record Endpoint : Type 0 where
  pub nic : ℕ
  pub mtu : ℕ
  pub link_addr : List ℕ

-- The calls of gVisor's `stack.Stack`; `none` is an error.
pub record Calls (S : Type 0) : Type 0 where
  pub create_nic : ℕ → Endpoint → S → Option S
  pub add_protocol_address : ℕ → Protocol → Addr → ℕ → S → Option S
  pub new_subnet : Addr → ℕ → Bool
  pub add_route : Addr → ℕ → Option Addr → ℕ → S → S
  pub remove_nic : ℕ → S → S
  pub protocol_addresses : S → List (Addr × ℕ)

pub record Manager (S : Type 0) : Type 0 where
  pub stack : S
  pub nics : List (String × Endpoint)
  pub nic_names : List (ℕ × String)
  pub nic_by_addr : List (Prefix × String)
  pub next_nic_id : ℕ
  pub enable_ipv6 : Bool

-- A tcpip address: four bytes for IPv4 and IPv4 in IPv6, else sixteen, all zero for the zero value.
pub netip_to_tcpip_address : Addr → Addr
netip_to_tcpip_address invalid = v6 0 ""
netip_to_tcpip_address (v4 a) = v4 a
netip_to_tcpip_address (v6 a z) = if is_4_in_6 (v6 a z) then v4 (a % 2 ^ 32) else v6 a ""

pub ip_protocol_for_address : Addr → Protocol
ip_protocol_for_address a = if is_4 a || is_4_in_6 a then ipv4 else ipv6

pub mac_for_nic : ℕ → List ℕ
mac_for_nic id = 2 ∷ 0 ∷ 0 ∷ 0 ∷ 0 ∷ u8 id ∷ []

-- `Bits()` where a prefix is valid.
abbrev pub prefix_len : Prefix → ℕ
prefix_len p = p.bits_plus_one - 1

-- The loop over `nicByAddr` for the address itself.
unfoldable pub has_prefix : Prefix → List (Prefix × String) → Bool
has_prefix p [] = false
has_prefix p ((q, _) ∷ m) = if q == p then true else has_prefix p m

-- The loop over `nicNames` for the number of a name; 0 is none.
pub nic_id_of : String → List (ℕ × String) → ℕ
nic_id_of name [] = 0
nic_id_of name ((id, n) ∷ m) = if n == name then id else nic_id_of name m

-- The loop over `nicByAddr` that deletes the addresses of a name.
pub without_name : String → List (Prefix × String) → List (Prefix × String)
without_name name [] = []
without_name name ((p, n) ∷ m) =
    if n == name then without_name name m else (p, n) ∷ without_name name m

unfoldable pub name_containing : Addr → List (Prefix × String) → String × Bool
name_containing a [] = ("", false)
name_containing a ((p, name) ∷ m) = if contains p a then (name, true) else name_containing a m

unfoldable pub in_any : Addr → List Prefix → Bool
in_any a [] = false
in_any a (p ∷ ps) = if contains p a then true else in_any a ps

module _ {S : Type 0} where
  unfoldable pub new_manager : S → Bool → Manager S
  new_manager s enable_ipv6 = record {
    stack = s;
    nics = [];
    nic_names = [];
    nic_by_addr = [];
    next_nic_id = 1;
    enable_ipv6 = enable_ipv6;
  }

  unfoldable pub nic_name_for_address : Manager S → Addr → String × Bool
  nic_name_for_address m a = name_containing a m.nic_by_addr

  -- The protocol that the packet is injected as; `none` is the error.
  unfoldable pub inject_inbound : Manager S → String → List ℕ → Option (Endpoint × Protocol)
  inject_inbound m nic_name ip_packet = elim (lookup nic_name m.nics) [
    | none ↦ none
    | some ep ↦
        let six = ltb 0 (length ip_packet) && shr (get_or ip_packet 0 0) 4 == 6 in
        some (ep, if six then ipv6 else ipv4)
  ]

  module _ (calls : Calls S) where
    -- The new NIC in the three maps, after the stack took it.
    unfoldable pub register : Manager S → NicConfig → Endpoint → Manager S
    register m cfg ep = record m {
      nics = insert cfg.name ep m.nics;
      nic_names = insert ep.nic cfg.name m.nic_names;
      nic_by_addr = insert cfg.address cfg.name m.nic_by_addr;
    }

    -- The address and the route of a NIC whose address is new; false where an error stops it.
    unfoldable pub assign_address : NicConfig → ℕ → S → S × Bool
    assign_address cfg nic_id s =
        let addr = netip_to_tcpip_address cfg.address.addr in
        let net_addr = netip_to_tcpip_address (masked_addr cfg.address) in
        let protocol = ip_protocol_for_address cfg.address.addr in
        elim (calls.add_protocol_address nic_id protocol addr (prefix_len cfg.address) s) [
          | none ↦ (s, false)
          | some s' ↦
              if calls.new_subnet net_addr (prefix_len cfg.address)
              then (calls.add_route net_addr (prefix_len cfg.address) none nic_id s', true)
              else (s', false)
        ]

    -- `AddNIC` after the stack was given the address, or refused.
    unfoldable pub after_assign : Manager S → NicConfig → Endpoint → S × Bool → Manager S × Bool
    after_assign m cfg ep (s, true) = (register (record m { stack = s }) cfg ep, true)
    after_assign m cfg ep (s, false) = (record m { stack = s }, false)

    -- `AddNIC` after `CreateNIC`. An address that another NIC has is not given to the stack again.
    unfoldable pub after_create : Manager S → NicConfig → Endpoint → Option S → Manager S × Bool
    after_create m cfg ep none = (m, false)
    after_create m cfg ep (some s) =
        after_assign m cfg ep
          (if has_prefix cfg.address m.nic_by_addr then (s, true) else assign_address cfg ep.nic s)

    abbrev pub new_endpoint : Manager S → NicConfig → Endpoint
    new_endpoint m cfg = record {
      nic = m.next_nic_id;
      mtu = cfg.mtu;
      link_addr = mac_for_nic m.next_nic_id;
    }

    -- The manager after `AddNIC`, and whether it returned no error.
    unfoldable pub add_nic : Manager S → NicConfig → Manager S × Bool
    add_nic m cfg =
        let ep = new_endpoint m cfg in
        after_create (record m { next_nic_id = m.next_nic_id + 1 }) cfg ep
          (calls.create_nic m.next_nic_id ep m.stack)

    -- Where the next hop is the peer itself the route has no gateway.
    pub add_peer_route : Manager S → String → Prefix → Addr → Manager S × Bool
    add_peer_route m nic_name peer_prefix next_hop = elim (lookup nic_name m.nics) [
      | none ↦ (m, false)
      | some _ ↦
          let nic_id = nic_id_of nic_name m.nic_names in
          let dest = netip_to_tcpip_address (masked_addr peer_prefix) in
          let direct = not (is_valid next_hop) || next_hop == peer_prefix.addr in
          let gateway = if direct then none else some (netip_to_tcpip_address next_hop) in
          let stack' = calls.add_route dest (prefix_len peer_prefix) gateway nic_id m.stack in
          if nic_id == 0
          then (m, false)
          else (if calls.new_subnet dest (prefix_len peer_prefix)
              then (record m { stack = stack' }, true)
              else (m, false))
    ]

    pub add_default_route : Manager S → String → Manager S × Bool
    add_default_route m nic_name =
        let nic_id = nic_id_of nic_name m.nic_names in
        if nic_id == 0
        then (m, false)
        else (record m { stack = calls.add_route (v4 0) 0 none nic_id m.stack }, true)

    pub remove_nic : Manager S → String → Manager S
    remove_nic m name = elim (lookup name m.nics) [
      | none ↦ m
      | some _ ↦
          let nic_id = nic_id_of name m.nic_names in
          let found = not (nic_id == 0) in
          record m {
            stack = if found then calls.remove_nic nic_id m.stack else m.stack;
            nic_names = if found then delete nic_id m.nic_names else m.nic_names;
            nic_by_addr = without_name name m.nic_by_addr;
            nics = delete name m.nics;
          }
    ]

    -- The prefixes of all NICs, as the stack reports them.
    unfoldable pub to_prefixes : List (Addr × ℕ) → List Prefix
    to_prefixes [] = []
    to_prefixes ((a, n) ∷ rest) =
        if is_valid a then prefix_from a n ∷ to_prefixes rest else to_prefixes rest

    unfoldable pub local_addresses : Manager S → List Prefix
    local_addresses m = to_prefixes (calls.protocol_addresses m.stack)

    unfoldable pub is_local_address : Manager S → Addr → Bool
    is_local_address m a = in_any a (local_addresses m)
