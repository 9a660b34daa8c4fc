-- ===== src/Bgp/Proxy.antt =====
-- internal/bgp/proxy.go: the proxies between the BGP server, which stands on the loopback of the
-- host, and the peers, which are reached through the embedded stack. A listener is a number.
pub mod Peers
use gouter.Base.{
  string_eq, nat_eq, ℕ, ◌+◌, ◌^◌, Bool, true, false, List, [], ◌∷◌, ◌++◌, Option, none, some,
  String, ◌==◌, if◌then◌else◌, ltb, u16,
}
use gouter.Base.Dict
use gouter.Netip.{Addr, invalid, v4, v6, addr_eq, is_valid}
use gouter.Mpls.Udp.{AddrPort}

pub record PeerProxy : Type 0 where
  pub name : String
  pub peer_addr : Addr
  pub peer_port : ℕ
  pub local_ip : Addr
  pub outbound_port : ℕ

pub record ProxyManager : Type 0 where
  pub gobgp_port : ℕ
  pub proxies : List (Addr × PeerProxy)
  pub listeners : List (Addr × ℕ)
  pub next_ip : Addr
  pub next_port : ℕ
  pub inbound_lns : List ℕ

-- `netip.Addr.Next`: the zero value after the last address.
unfoldable pub next_addr : Addr → Addr
next_addr invalid = invalid
next_addr (v4 a) = if ltb (a + 1) (2 ^ 32) then v4 (a + 1) else invalid
next_addr (v6 a z) = if ltb (a + 1) (2 ^ 128) then v6 (a + 1) z else invalid

-- 127.0.0.2.
abbrev pub first_loopback : Addr
first_loopback = v4 0x7f000002

-- `free_port` is the port of the listener that is opened to find one; `none` where that fails.
unfoldable pub new_proxy_manager : ℕ → Addr → ℕ → Option ℕ → ProxyManager
new_proxy_manager gobgp_port start_ip start_port free_port =
    let found : ℕ = elim free_port [ none ↦ 11001 | some p ↦ u16 p ] in
    record {
      gobgp_port = gobgp_port;
      proxies = [];
      listeners = [];
      next_ip = if is_valid start_ip then start_ip else first_loopback;
      next_port = if start_port == 0 then found else start_port;
      inbound_lns = [];
    }

-- The address and the port of the next proxy, taken whether or not the host then listens there.
unfoldable pub take_next : ProxyManager → ProxyManager
take_next pm = record pm { next_ip = next_addr pm.next_ip; next_port = u16 (pm.next_port + 1) }

abbrev pub proxy_for : ProxyManager → String → Addr → ℕ → PeerProxy
proxy_for pm name peer_addr peer_port = record {
  name = name;
  peer_addr = peer_addr;
  peer_port = peer_port;
  local_ip = pm.next_ip;
  outbound_port = pm.next_port;
}

-- `listened` is what `net.Listen` at the proxy's own address comes back with; a result of `none` is
-- its error.
unfoldable pub create_proxy :
    ProxyManager → String → Addr → ℕ → Option ℕ → ProxyManager × Option PeerProxy
create_proxy pm name peer_addr peer_port listened = elim (Dict.lookup peer_addr pm.proxies) [
  | some existing ↦ (pm, some existing)
  | none ↦ elim listened [
    | none ↦ (take_next pm, none)
    | some ln ↦
        let proxy = proxy_for pm name peer_addr peer_port in
        let pm' = take_next pm in
        (
          record pm' {
            listeners = Dict.insert pm.next_ip ln pm.listeners;
            proxies = Dict.insert peer_addr proxy pm.proxies;
          },
          some proxy,
        )
  ]
]

pub get_proxy : ProxyManager → Addr → Option PeerProxy
get_proxy pm peer_addr = Dict.lookup peer_addr pm.proxies

-- `listened` is what `ListenTCPv4v6(179)` comes back with; the result tells whether there is no
-- error.
pub start_inbound : ProxyManager → Option (ℕ × Option ℕ) → ProxyManager × Bool
start_inbound pm none = (pm, false)
start_inbound pm (some (v4ln, none)) = (record pm { inbound_lns = v4ln ∷ [] }, true)
start_inbound pm (some (v4ln, some v6ln)) = (record pm { inbound_lns = v4ln ∷ v6ln ∷ [] }, true)

-- What becomes of a connection: dropped, or joined to one that is dialled, to an address from a
-- local address where one is asked for.
pub data Joined : Type 0 where
  dropped : Joined
  joined : Option Addr → AddrPort → Joined

-- `dialled` tells whether `DialTCP` reaches the peer.
pub handle_outbound : PeerProxy → (AddrPort → Bool) → Joined
handle_outbound proxy dialled =
    let peer : AddrPort = record { addr = proxy.peer_addr; port = proxy.peer_port } in
    if dialled peer then joined none peer else dropped

-- The loop of `runOutbound`, over what `Accept` comes back with: a connection, with what its dial
-- meets, or an error, which ends the loop.
unfoldable pub run_outbound : PeerProxy → List (Option (AddrPort → Bool)) → List Joined
run_outbound proxy [] = []
run_outbound proxy (none ∷ es) = []
run_outbound proxy (some dialled ∷ es) = handle_outbound proxy dialled ∷ run_outbound proxy es

abbrev pub gobgp_addr : ProxyManager → AddrPort
gobgp_addr pm = record { addr = v4 0x7f000001; port = pm.gobgp_port }

-- `remote` is the address that the connection comes from, `none` where it does not parse, and
-- `dialled` tells whether the dial from the proxy's own address reaches the BGP server.
unfoldable pub handle_inbound : ProxyManager → Option AddrPort → (Addr → Bool) → Joined
handle_inbound pm remote dialled = elim remote [
  | none ↦ dropped
  | some r ↦ elim (Dict.lookup r.addr pm.proxies) [
    | none ↦ dropped
    | some proxy ↦
        if dialled proxy.local_ip then joined (some proxy.local_ip) (gobgp_addr pm) else dropped
  ]
]

-- What a turn of the loop of `runInbound` meets: a connection, or an error of `Accept`, with the
-- context done or not.
pub data Inbound : Type 0 where
  connection : Option AddrPort → (Addr → Bool) → Inbound
  accept_error : Bool → Inbound

-- What becomes of the connections, each in a goroutine of its own, and whether the loop has returned.
unfoldable pub run_inbound : ProxyManager → List Inbound → List Joined × Bool
run_inbound pm [] = ([], false)
run_inbound pm (connection remote dialled ∷ es) =
    let rest = run_inbound pm es in (handle_inbound pm remote dialled ∷ rest.0, rest.1)
run_inbound pm (accept_error context_done ∷ es) =
    let rest = run_inbound pm es in if context_done then ([], true) else rest

abbrev pub values : List (Addr × ℕ) → List ℕ
values [] = []
values ((_, ln) ∷ l) = ln ∷ values l

-- The listeners that `Close` closes; the maps stay as they are.
pub close_proxies : ProxyManager → List ℕ
close_proxies pm = values pm.listeners ++ pm.inbound_lns
