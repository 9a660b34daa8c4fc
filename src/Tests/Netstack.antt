-- ===== src/Tests/Netstack.antt =====
-- The netstack manager at small inputs.
use gouter.Base.{
  string_eq, nat_eq, ◌≡◌, refl, true, false, [], ◌∷◌, none, some, String, if◌then◌else◌, ◌==◌,
}
use gouter.Base.Dict.{lookup}
use gouter.Netip.{Prefix, v4, prefix_eq}
use gouter.Transport.{Packet, packet_ip}
use gouter.Netstack.Manager.{
  Manager, Calls, NicConfig, Endpoint, add_nic, remove_nic, has_prefix, nic_name_for_address,
}
use gouter.Netstack.Manager.Names
use gouter.Netstack.Manager.Names.{IsConsistent, IsMap}
use gouter.Router.Packets.{Router, null_process}
use gouter.Tests.Tables.{fib, resolver}

-- A stack that takes every call.
abbrev calls : Calls (Unit {0})
calls = record {
  create_nic = λ id ep s. some s;
  add_protocol_address = λ id p a n s. some s;
  new_subnet = λ a n. true;
  add_route = λ a n g id s. s;
  remove_nic = λ id s. s;
  protocol_addresses = λ s. [];
}

abbrev ten : Prefix
ten = record { addr = v4 0x0A010203; bits_plus_one = 25 }

abbrev endpoint : Endpoint
endpoint = record { nic = 1; mtu = 1420; link_addr = [] }

abbrev manager : Manager (Unit {0})
manager = record {
  stack = tt;
  nics = ("wg0", endpoint) ∷ [];
  nic_names = (1, "wg0") ∷ [];
  nic_by_addr = (ten, "wg0") ∷ [];
  next_nic_id = 2;
  enable_ipv6 = false;
}

abbrev wg1 : NicConfig
wg1 = record { name = "wg1"; address = ten; mtu = 1420 }

start-IsConsistent : IsConsistent manager
unfolding lookup
start-IsConsistent = ((endpoint, refl), tt)

manager-IsConsistent_example :
    IsConsistent (add_nic calls manager wg1).0 × IsConsistent (remove_nic calls manager "wg0")
manager-IsConsistent_example = Names.manager-IsConsistent calls manager wg1 "wg0" start-IsConsistent

remove_nic-shared_address_example :
    let m' = remove_nic calls (add_nic calls manager wg1).0 "wg1" in
    (lookup ten m'.nic_by_addr ≡ none)
    × ((n : String) → lookup n m'.nics ≡ (if "wg1" == n then none else lookup n manager.nics))
unfolding has_prefix
remove_nic-shared_address_example =
    Names.remove_nic-shared_address calls manager wg1 tt (tt, tt) refl refl

abbrev router : Router (Unit {0})
router = record {
  transports = [];
  fib = fib;
  nexthop = resolver;
  netstack = manager;
  lfib = none;
  processor = null_process;
  is_local = λ a. true;
  nic_for_addr = nic_name_for_address manager;
}

abbrev packet : Packet
packet = record { kind = packet_ip; bytes = 0x45 ∷ []; transport = "wg0" }
