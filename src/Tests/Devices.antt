-- ===== src/Tests/Devices.antt =====
-- The TUN device and the configuration at small inputs.
use gouter.Base.{ℕ, ◌≡◌, refl, false, List, [], ◌∷◌, none, some, arith, pos}
use gouter.Config.{Config, LinkConfig, set_defaults}
use gouter.Config.Defaults
use gouter.Wg.Tun.{MemTun, write}
use gouter.Wg.Tun.Writes

abbrev tun : MemTun
tun = record {
  inbound = (1 ∷ []) ∷ [];
  outbound = [];
  closed = false;
  events = [];
  name = "wg0";
  mtu = 1420;
}

abbrev bufs : List (List ℕ)
bufs = (9 ∷ 9 ∷ 5 ∷ []) ∷ (9 ∷ []) ∷ []

write-IsPrefixOf_example :
    Writes.IsPrefixOf 2 0 tun.inbound bufs ((write tun bufs 2).0.inbound, (write tun bufs 2).1)
write-IsPrefixOf_example = Writes.write-IsPrefixOf tun bufs 2 refl (omega arith)

abbrev link : LinkConfig
link = record {
  name = "wg0";
  address = "";
  peer_ip = "";
  wg = some (record {
    listen_port = pos 51820;
    private_key = "";
    mtu = pos 0;
    public_key = "";
    endpoint = "";
    allowed_ips = "";
    persistent_keepalive = pos 0;
  });
  mpls_udp = none;
  ls = none;
}

abbrev pub config : Config
config = record {
  bgp = record { asn = 65000; router_id = "10.0.0.1"; import_filter = []; peers = [] };
  wire_guard = [];
  mpls = none;
  links = link ∷ [];
  routes = [];
  ipv6 = none;
  netstack = record { http_port = pos 0; forwards = [] };
}

set_defaults-IsComplete_example :
    Defaults.IsComplete (set_defaults config)
    × Defaults.IsFilled config (set_defaults config)
    × (set_defaults (set_defaults config) ≡ set_defaults config)
set_defaults-IsComplete_example = Defaults.set_defaults-IsComplete config
