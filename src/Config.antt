-- ===== src/Config.antt =====
-- internal/config/config.go: the configuration, and the defaults that Load fills in. Reading the file
-- and decoding its YAML are parameters.
pub mod Defaults
use gouter.Base.{
  nat_eq, ℕ, ℤ, pos, is_zero, Bool, true, false, List, [], ◌∷◌, Option, none, some, String, ◌==◌,
  if◌then◌else◌,
}

pub record BgpPeer : Type 0 where
  pub name : String
  pub address : String
  pub asn : ℕ
  pub peer_bgp_port : ℕ
  pub families : List String
  pub rr_client : Bool
  pub passive_mode : Bool

pub record BgpConfig : Type 0 where
  pub asn : ℕ
  pub router_id : String
  pub import_filter : List String
  pub peers : List BgpPeer

pub record RouteConfig : Type 0 where
  pub prefix : String
  pub next_hop : String
  pub via : String
  pub export : Bool
  pub in_label : ℕ
  pub labels : List ℕ

pub record WgPeerConf : Type 0 where
  pub public_key : String
  pub endpoint : String
  pub allowed_ips : String

pub record WireGuardConf : Type 0 where
  pub name : String
  pub listen_port : ℤ
  pub private_key : String
  pub address : String
  pub mtu : ℤ
  pub peers : List WgPeerConf

pub record MplsUdp : Type 0 where
  pub listen_port : ℤ
  pub peers : List String

pub record ForwardCfg : Type 0 where
  pub name : String
  pub listen_port : ℤ
  pub target : String

pub record NetstackConf : Type 0 where
  pub http_port : ℤ
  pub forwards : List ForwardCfg

pub record WgLinkConfig : Type 0 where
  pub listen_port : ℤ
  pub private_key : String
  pub mtu : ℤ
  pub public_key : String
  pub endpoint : String
  pub allowed_ips : String
  pub persistent_keepalive : ℤ

pub record LinkLsConfig : Type 0 where
  pub remote_router_id : String
  pub remote_asn : ℕ
  pub metric : ℕ
  pub adj_sid : ℕ

pub record MplsUdpLink : Type 0 where
  pub listen_port : ℤ
  pub peers : List String

-- No configuration holds one.
pub record MplsBase : Type 0 where
  pub srgb_start : ℕ
  pub srgb_end : ℕ

pub record LinkConfig : Type 0 where
  pub name : String
  pub address : String
  pub peer_ip : String
  pub wg : Option WgLinkConfig
  pub mpls_udp : Option MplsUdpLink
  pub ls : Option LinkLsConfig

-- A pointer that may be nil is an option.
pub record Config : Type 0 where
  pub bgp : BgpConfig
  pub wire_guard : List WireGuardConf
  pub mpls : Option MplsUdp
  pub links : List LinkConfig
  pub routes : List RouteConfig
  pub ipv6 : Option Bool
  pub netstack : NetstackConf

-- A Go `int` that is 0 takes the default; a negative one is kept.
abbrev pub default_to : ℕ → ℤ → ℤ
default_to d n = if is_zero n then pos d else n

-- The loop over `cfg.WireGuard`.
pub set_wire_guard : List WireGuardConf → List WireGuardConf
set_wire_guard [] = []
set_wire_guard (w ∷ ws) = record w { mtu = default_to 1420 w.mtu } ∷ set_wire_guard ws

pub set_link : LinkConfig → LinkConfig
set_link l = elim l.wg [
  | none ↦ l
  | some w ↦ record l { wg = some (record w { mtu = default_to 1420 w.mtu }) }
]

-- The loop over `cfg.Links`.
pub set_links : List LinkConfig → List LinkConfig
set_links [] = []
set_links (l ∷ ls) = set_link l ∷ set_links ls

pub set_ipv6 : Option Bool → Option Bool
set_ipv6 none = some true
set_ipv6 (some b) = some b

pub set_defaults : Config → Config
set_defaults cfg = record cfg {
  netstack = record cfg.netstack { http_port = default_to 8080 cfg.netstack.http_port };
  ipv6 = set_ipv6 cfg.ipv6;
  wire_guard = set_wire_guard cfg.wire_guard;
  links = set_links cfg.links;
}

pub ipv6_enabled : Config → Bool
ipv6_enabled cfg = elim cfg.ipv6 [ none ↦ false | some b ↦ b ]

-- `none` is either error.
module _ {D : Type 0} (read_file : String → Option D) (unmarshal : D → Option Config) where
  pub load : String → Option Config
  load path = elim (read_file path) [
    | none ↦ none
    | some bytes ↦ elim (unmarshal bytes) [ none ↦ none | some cfg ↦ some (set_defaults cfg) ]
  ]

-- The decoding of base64 and the encoding in hexadecimal digits are parameters.
unfoldable pub b64_to_hex : (String → Option (List ℕ)) → (List ℕ → String) → String → Option String
b64_to_hex decode encode s = elim (decode s) [ none ↦ none | some bytes ↦ some (encode bytes) ]
