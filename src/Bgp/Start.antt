-- ===== src/Bgp/Start.antt =====
-- internal/bgp/speaker.go: the start of the speaker.
pub mod FilterFails
use gouter.Base.{
  string_eq, nat_eq, ℕ, ◌<◌, Bool, true, false, ◌&&◌, List, [], ◌∷◌, Option, none, some, String,
  ◌==◌, if◌then◌else◌, ltb, u16,
}
use gouter.Netip.{Addr, invalid, Prefix}
use gouter.Config.{RouteConfig}
use gouter.Bgp.Families.{build_afi_safis}
use gouter.Bgp.Paths.{Nlri}
use gouter.Bgp.Proxy.{
  ProxyManager, PeerProxy, new_proxy_manager, create_proxy, start_inbound, close_proxies,
}
use gouter.Bgp.Server.{
  World, Call, start_bgp, add_policy, add_policy_assignment, add_peer, watch_best_path, exports,
  accept, Statement, Peer, Ended, ok, failed, panicked, Action, pure, or_fail, ◌>>=◌, ◌>>◌, logged,
  for_each, call,
}
use gouter.Bgp.Filter.{setup_filter}
use gouter.Bgp.Export.{LsLink, add_local_route, add_ls_routes}

pub record PeerConfig : Type 0 where
  pub name : String
  pub address : String
  pub asn : ℕ
  pub peer_bgp_port : ℕ
  pub families : List String
  pub rr_client : Bool
  pub passive_mode : Bool

-- Without `ResolveNH`, which is a field of the speaker of Bgp/Paths.
pub record SpeakerConfig : Type 0 where
  pub asn : ℕ
  pub router_id : String
  pub import_filter : List String
  pub peers : List PeerConfig
  pub export_routes : List RouteConfig
  pub ls_links : List LsLink
  pub enable_ipv6 : Bool

-- What the start asks of its environment: the parsers, gobgp's constructors, the answers of the
-- server, the free ports that the host finds, and what its listens come back with.
pub record Env : Type 0 where
  pub parse_addr : String → Option Addr
  pub parse_prefix : String → Option Prefix
  pub nlri_made : Nlri → Bool
  pub next_hop_made : Addr → Bool
  pub accepts : Call → Bool
  pub free_port : Option ℕ
  pub free_proxy_port : Option ℕ
  pub listens : Addr → ℕ → Option ℕ
  pub listens_inbound : Option (ℕ × Option ℕ)

pub get_available_port : Option ℕ → Option ℕ
get_available_port none = none
get_available_port (some port) = if ltb 65535 port then none else some (u16 port)

pub listen_addrs : Bool → List String
listen_addrs true = "0.0.0.0" ∷ "::" ∷ []
listen_addrs false = "0.0.0.0" ∷ []

pub set_proxies : ProxyManager → Action (Unit {0})
set_proxies pm w = (ok tt, record w { proxies = pm })

abbrev pub ended_proxy : World → ProxyManager × Option PeerProxy → Ended PeerProxy × World
ended_proxy w (pm, none) = (failed, record w { proxies = pm })
ended_proxy w (pm, some proxy) = (ok proxy, record w { proxies = pm })

-- `CreateProxy`, where the host listens at the address and the port that are next.
pub make_proxy : (Addr → ℕ → Option ℕ) → String → Addr → ℕ → Action PeerProxy
make_proxy listens name peer port w =
    ended_proxy w
      (create_proxy w.proxies name peer port (listens w.proxies.next_ip w.proxies.next_port))

abbrev pub ended_inbound : World → ProxyManager × Bool → Ended (Unit {0}) × World
ended_inbound w (pm, true) = (ok tt, record w { proxies = pm })
ended_inbound w (pm, false) = (failed, record w { proxies = pm })

pub open_inbound : Option (ℕ × Option ℕ) → Action (Unit {0})
open_inbound listened w = ended_inbound w (start_inbound w.proxies listened)

-- The neighbour stands at the proxy's own address and port.
pub peer_of : SpeakerConfig → PeerConfig → PeerProxy → Peer
peer_of cfg p proxy = record {
  neighbor_address = proxy.local_ip;
  peer_asn = p.asn;
  local_asn = cfg.asn;
  remote_port = proxy.outbound_port;
  passive_mode = p.passive_mode;
  connect_retry = 10;
  afi_safis = build_afi_safis p.families;
  restart_time = some 120;
  route_reflector = if p.rr_client && p.asn == cfg.asn then some cfg.router_id else none;
}

module _ (env : Env) (cfg : SpeakerConfig) where
  pub add_configured_peer : PeerConfig → Action (Unit {0})
  add_configured_peer p = do
    addr ← or_fail (env.parse_addr p.address)
    let port = if p.peer_bgp_port == 0 then 179 else p.peer_bgp_port
    proxy ← make_proxy env.listens p.name addr port
    call env.accepts (add_peer (peer_of cfg p proxy))

  -- The error of the policy is dropped; that of its assignment is the result.
  pub setup_global_nexthop : Action (Unit {0})
  setup_global_nexthop = do
    logged (
        call env.accepts (
          add_policy "nexthop-override" (
            (record {
              name = "set-nh";
              prefix_set = none;
              route_action = none;
              next_hop = some cfg.router_id;
            })
            ∷ [])))
    call env.accepts (add_policy_assignment exports "nexthop-override" accept)

  pub add_route : RouteConfig → Action (Unit {0})
  add_route =
      add_local_route env.parse_addr env.parse_prefix env.nlri_made env.next_hop_made env.accepts

  pub add_ls : LsLink → Action (Unit {0})
  add_ls =
      add_ls_routes env.parse_addr env.parse_prefix env.nlri_made env.next_hop_made env.accepts
        cfg.asn cfg.router_id

  -- From the peers on.
  pub start_peers : Action (Unit {0})
  start_peers = do
    for_each cfg.peers add_configured_peer
    open_inbound env.listens_inbound
    for_each cfg.export_routes (λ r. logged (add_route r))
    for_each cfg.ls_links (λ l. logged (add_ls l))
    call env.accepts watch_best_path

  pub start_on : ℕ → Action (Unit {0})
  start_on port = do
    set_proxies (new_proxy_manager port invalid 0 env.free_proxy_port)
    call env.accepts (start_bgp cfg.asn cfg.router_id port (listen_addrs cfg.enable_ipv6))
    logged (setup_filter env.parse_prefix env.accepts cfg.import_filter)
    logged setup_global_nexthop
    start_peers

  -- `Speaker.Start`.
  pub start : Action (Unit {0})
  start = or_fail (get_available_port env.free_port) >>= start_on

-- `Stop`: the listeners that it closes, before it stops the server and drops its error. Before a
-- `Start` that found a port there is no proxy manager, and the call of its method panics: `none`.
unfoldable pub stop : Option ProxyManager → Option (List ℕ)
stop none = none
stop (some pm) = some (close_proxies pm)
