-- ===== src/Tests/Ping.antt =====
-- The ping test and the context of the program at small inputs.
use gouter.Base.{string_eq, ℕ, String, List, nat_eq, ◌≡◌, refl, ◌⊎◌, true, [], ◌∷◌, some}
use gouter.Base.Dict
use gouter.Netip.{Addr, v4, Prefix, contains}
use gouter.Transport.{Packet, packet_ip}
use gouter.Netstack.Manager.{
  Manager, Calls, new_manager, add_nic, after_create, after_assign, assign_address, register,
  has_prefix, mac_for_nic,
}
use gouter.Router.Packets.{dropped, injected, handle}
use gouter.Router.Packets.Bare.{IsOurs}
use gouter.Cmd.Pingtest.{ping_config, ping_router}
use gouter.Cmd.Pingtest.Echoes
use gouter.Cmd.Pingtest.Main.{PingEnv, UapiConfig, runs, ping_main, is_missing, after_nic}
use gouter.Config.{b64_to_hex}

-- A stack that takes every NIC and every address, and has 10.0.0.2.
abbrev pub calls : Calls (Unit {0})
calls = record {
  create_nic = λ id ep s. some s;
  add_protocol_address = λ id p a n s. some s;
  new_subnet = λ a n. true;
  add_route = λ a n g id s. s;
  remove_nic = λ id s. s;
  protocol_addresses = λ s. (v4 0x0a000002, 24) ∷ [];
}

abbrev prefix : Prefix
prefix = record { addr = v4 0x0a000002; bits_plus_one = 25 }

abbrev pub manager : Manager (Unit {0})
manager = record {
  stack = tt;
  nics = ("wg-gouter", record { nic = 1; mtu = 1420; link_addr = mac_for_nic 1 }) ∷ [];
  nic_names = (1, "wg-gouter") ∷ [];
  nic_by_addr = (prefix, "wg-gouter") ∷ [];
  next_nic_id = 2;
  enable_ipv6 = true;
}

manager-added : add_nic calls (new_manager tt true) (ping_config prefix) ≡ (manager, true)
unfolding add_nic after_create after_assign assign_address register new_manager has_prefix
    Dict.insert
manager-added = refl

-- An IPv4 packet for 10.0.0.2.
abbrev pub echo : Packet
echo = record {
  kind = packet_ip;
  bytes = 0x45 ∷ 0 ∷ 0 ∷ 20 ∷ 0 ∷ 1 ∷ 0 ∷ 0 ∷ 64 ∷ 1 ∷ 0 ∷ 0 ∷ 10 ∷ 0 ∷ 0 ∷ 1 ∷ 10 ∷ 0 ∷ 0 ∷ 2 ∷ [];
  transport = "wg-gouter";
}

abbrev ping_env : PingEnv
ping_env = record {
  gouter_sk = "secret";
  kernel_pk = "public";
  listen_port = "51820";
  gouter_ip = "10.0.0.2/24";
  kernel_ip = "10.0.0.1";
}

abbrev uapi : UapiConfig
uapi = record {
  private_key = "00";
  listen_port = "51820";
  public_key = "00";
  allowed_ip = "10.0.0.1/32";
}

abbrev hex : List ℕ → String
hex bytes = "00"

ping_main-up :
    ping_main calls tt
      (λ s. some (0 ∷ []))
      hex
      (λ s. some prefix)
      (λ s. "10.0.0.1/32")
      true
      ping_env
    ≡ runs uapi (ping_router calls manager prefix)
unfolding ping_main is_missing after_nic b64_to_hex add_nic after_create after_assign assign_address
    register new_manager has_prefix Dict.insert
ping_main-up = refl

handle-ping_main_example :
    (handle (ping_router calls manager prefix) echo ≡ dropped)
    ⊎ ((p : Prefix) × (some prefix ≡ some p)
        × ((dst : Addr) × IsOurs (ping_router calls manager prefix) echo dst
            × (contains p dst ≡ true)
            × (handle (ping_router calls manager prefix) echo ≡ injected "wg-gouter" echo.bytes)))
handle-ping_main_example =
    Echoes.handle-ping_main calls tt (λ s. some (0 ∷ [])) hex (λ s. some prefix)
      (λ s. "10.0.0.1/32") true ping_env uapi (ping_router calls manager prefix) echo ping_main-up
