-- ===== src/Tests/Speakers.antt =====
-- The speaker's proxies, its exports and its start at small inputs.
use gouter.Base.{
  string_eq, nat_eq, ◌≡◌, refl, true, false, List, [], ◌∷◌, Option, none, some, String, arith, ◌==◌,
  not, if◌then◌else◌, inl,
}
use gouter.Base.Dict
use gouter.Netip.{Addr, v4, Prefix, addr_eq, contains}
use gouter.Transport.{Packet, packet_ip}
use gouter.Mpls.Lfib.{Lfib, new_lfib}
use gouter.Mpls.Udp.{AddrPort}
use gouter.Router.Fib.{Fib, FibEntry, has_exact, find_exact}
use gouter.Router.Fib.Table.{new_fib-IsValid}
use gouter.Router.Fib.{new_fib}
use gouter.Router.Nexthop.{new_nexthop_resolver}
use gouter.Router.Packets.{Router, handle, null_process}
use gouter.Router.Packets.Pops.{labelled, plain}
use gouter.Netstack.Manager.{Manager}
use gouter.Bgp.Paths.{Speaker, handle_path}
use gouter.Bgp.Proxy.{
  PeerProxy, ProxyManager, new_proxy_manager, create_proxy, get_proxy, take_next, next_addr,
  handle_inbound,
}
use gouter.Bgp.Proxy.Peers
use gouter.Bgp.Proxy.Peers.{Request, create_all, speaker_proxies}
use gouter.Bgp.Export.{exported_path}
use gouter.Bgp.Export.Delivered
use gouter.Router.Packets.Routed.{IsPushed, IsWritten, out_name}
use gouter.Router.Packets.Sent.{IsSentOn}
use gouter.Bgp.Server.Actions.{Alike}
use gouter.Bgp.Start.{Env, SpeakerConfig, start}
use gouter.Bgp.Start.FilterFails
use gouter.Bgp.Start.FilterFails.{is_filter_call}

abbrev ten_1 : Addr
ten_1 = v4 0x0a000001

abbrev ten_2 : Addr
ten_2 = v4 0x0a000002

abbrev empty : ProxyManager
empty = record {
  gobgp_port = 1790;
  proxies = [];
  listeners = [];
  next_ip = v4 0x7f000002;
  next_port = 11001;
  inbound_lns = [];
}

create_proxy-get_proxy_example :
    let r = create_proxy empty "a" ten_1 179 (some 3) in
    (r.1 ≡ get_proxy r.0 ten_1)
    × ((q : Addr) (p : PeerProxy) → get_proxy empty q ≡ some p → get_proxy r.0 q ≡ some p)
create_proxy-get_proxy_example = Peers.create_proxy-get_proxy empty "a" ten_1 179 (some 3)

abbrev requests : List Request
requests =
    (record { name = "a"; peer = ten_1; port = 179; listened = some 3 })
    ∷ (record { name = "b"; peer = ten_2; port = 179; listened = some 4 })
    ∷ []

abbrev remote : AddrPort
remote = record { addr = ten_2; port = 40000 }

abbrev remote_again : AddrPort
remote_again = record { addr = ten_2; port = 40001 }

handle_inbound-one_peer_example : remote.addr ≡ remote_again.addr
unfolding handle_inbound create_all create_proxy new_proxy_manager take_next next_addr Dict.lookup
    Dict.insert
handle_inbound-one_peer_example =
    Peers.handle_inbound-one_peer 1790 none requests remote remote_again (λ a. true) (λ a. true)
      (v4 0x7f000003) (record { addr = v4 0x7f000001; port = 1790 })
      (record { addr = v4 0x7f000001; port = 1790 }) (omega arith) refl refl

abbrev parse_addr : String → Option Addr
parse_addr s = if s == "10.0.0.1" then some ten_1 else some ten_2

abbrev speaker : String → Speaker
speaker id = record {
  router_id = id;
  resolve_nh = none;
  fib = new_fib;
  lfib = record { entries = []; alloc = record { next = 16 } };
  route_count = 0;
}

abbrev prefix : Prefix
prefix = record { addr = v4 0xc0a80000; bits_plus_one = 17 }

abbrev manager : Manager (Unit {0})
manager = record {
  stack = tt;
  nics = [];
  nic_names = [];
  nic_by_addr = [];
  next_nic_id = 1;
  enable_ipv6 = false;
}

abbrev around : Lfib → Router (Unit {0})
around f = record {
  transports = [];
  fib = new_fib;
  nexthop = new_nexthop_resolver new_fib;
  netstack = manager;
  lfib = some f;
  processor = λ bytes. some bytes;
  is_local = λ a. false;
  nic_for_addr = λ a. ("", false);
}

-- Another router, with one transport and no labels, around its table.
abbrev beyond : Fib → Router (Unit {0})
beyond f = record (around new_lfib) {
  transports = ("wg0", record { name = "wg0"; mtu = 1420 }) ∷ [];
  fib = f;
  lfib = none;
  processor = null_process;
}

-- An IPv4 packet for a host of the prefix.
abbrev packet : Packet
packet = record {
  kind = packet_ip;
  bytes =
      0x45 ∷ 0 ∷ 0 ∷ 20 ∷ 0 ∷ 1 ∷ 0 ∷ 0 ∷ 64 ∷ 1 ∷ 0 ∷ 0 ∷ 10 ∷ 0 ∷ 0 ∷ 2 ∷ 192 ∷ 168 ∷ 0 ∷ 1 ∷ [];
  transport = "wg0";
}

exported_path-delivered_example :
    (s' t' : Speaker) × (e : FibEntry) × (sent q : Packet) × (handle_path parse_addr
        (speaker "10.0.0.1")
        (exported_path prefix ten_1 300)
      ≡ some s')
    × (handle_path parse_addr (speaker "10.0.0.2") (exported_path prefix ten_1 300) ≡ some t')
    × (has_exact t'.fib prefix ≡ some e)
    × IsSentOn packet 4 8 sent
    × IsPushed sent (300 ∷ []) q
    × IsWritten (beyond t'.fib) (out_name (beyond t'.fib) sent e) q (handle (beyond t'.fib) packet)
    × (handle (around s'.lfib) (labelled packet q.bytes)
        ≡ handle (around s'.lfib) (plain packet sent.bytes))
unfolding new_fib has_exact find_exact contains
exported_path-delivered_example =
    Delivered.exported_path-delivered around beyond parse_addr prefix ten_1 (λ f. refl)
      (λ f b. refl) (λ f. refl) (λ f. refl) (speaker "10.0.0.1") (speaker "10.0.0.2") 300 ten_2
      packet packet 4 8 (v4 0xc0a80001) (omega arith) (omega arith) refl refl refl (ground arith)
      new_fib-IsValid refl (omega arith) (inl (refl, refl, refl, omega arith, refl))
      (λ e. omega (arith, e)) (λ f. refl) refl (λ q e found. absurd (cc found))

abbrev env : Env
env = record {
  parse_addr = parse_addr;
  parse_prefix = λ s. some prefix;
  nlri_made = λ n. true;
  next_hop_made = λ a. true;
  accepts = λ c. true;
  free_port = some 1790;
  free_proxy_port = some 11001;
  listens = λ a p. some p;
  listens_inbound = some (1, none);
}

abbrev config : SpeakerConfig
config = record {
  asn = 65000;
  router_id = "10.0.0.1";
  import_filter = "192.168.0.0/16" ∷ [];
  peers =
      (record {
        name = "a";
        address = "10.0.0.2";
        asn = 65001;
        peer_bgp_port = 0;
        families = [];
        rr_client = false;
        passive_mode = false;
      })
      ∷ [];
  export_routes = [];
  ls_links = [];
  enable_ipv6 = false;
}

start-Alike_example : Alike (start env config (record { proxies = empty; calls = [] })) (
    start
      (record env { accepts = λ c. not (is_filter_call c) })
      config
      (record { proxies = empty; calls = [] }))
start-Alike_example =
    FilterFails.start-Alike env config (λ c. not (is_filter_call c)) (λ c h. ground (arith, h))
      (record { proxies = empty; calls = [] })
