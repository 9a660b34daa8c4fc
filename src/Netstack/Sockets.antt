-- ===== src/Netstack/Sockets.antt =====
-- internal/netstack/stack.go: the sockets of the embedded stack, and what leaves it by a NIC. gVisor
-- is a parameter: how its stack listens and dials.
use gouter.Base.{string_eq, ℕ, List, [], ◌∷◌, ◌++◌, Option, none, some, String, if◌then◌else◌}
use gouter.Base.Dict.{lookup}
use gouter.Netip.{Addr, is_6}
use gouter.Mpls.Udp.{AddrPort}
use gouter.Transport.{Packet, packet_ip}
use gouter.Netstack.Manager.{Manager, Protocol, ipv4, ipv6, netip_to_tcpip_address}

-- `gonet.ListenTCP` and `gonet.DialContextTCP`; `none` is an error.
pub record Gonet (S L C : Type 0) : Type 0 where
  pub listen : S → ℕ → Protocol → Option L
  pub dial : S → Addr → ℕ → Protocol → Option C

module _ {S L C : Type 0} (gonet : Gonet S L C) (m : Manager S) where
  pub listen_tcp_proto : ℕ → Protocol → Option L
  listen_tcp_proto port proto = gonet.listen m.stack port proto

  pub listen_tcp : ℕ → Option L
  listen_tcp port = listen_tcp_proto port ipv4

  -- An error of the listener for IPv6 is not reported: that listener is nil.
  pub listen_tcp_v4v6 : ℕ → Option (L × Option L)
  listen_tcp_v4v6 port = elim (listen_tcp_proto port ipv4) [
    | none ↦ none
    | some v4ln ↦ some (v4ln, if m.enable_ipv6 then listen_tcp_proto port ipv6 else none)
  ]

  pub dial_tcp : AddrPort → Option C
  dial_tcp a =
      gonet.dial m.stack (netip_to_tcpip_address a.addr) a.port (if is_6 a.addr then ipv6 else ipv4)

-- The bytes of a packet of the stack, which come in slices.
pub join_slices : List (List ℕ) → List ℕ
join_slices [] = []
join_slices (s ∷ ss) = s ++ join_slices ss

-- The packets that the goroutine of `GetNICOutChannel` makes of those that the NIC gives it.
unfoldable pub out_packets : String → List (List (List ℕ)) → List Packet
out_packets name [] = []
out_packets name (slices ∷ rest) =
    record { kind = packet_ip; bytes = join_slices slices; transport = name }
    ∷ out_packets name rest

-- `none` is the nil channel, where there is no NIC of the name.
pub nic_out_channel :
    {S : Type 0} → Manager S → String → List (List (List ℕ)) → Option (List Packet)
nic_out_channel m name read = elim (lookup name m.nics) [
  | none ↦ none
  | some _ ↦ some (out_packets name read)
]
