-- ===== src/Mpls/Udp.antt =====
-- internal/mpls/transport.go: labelled packets over UDP. The socket is a parameter: which peer
-- addresses take a datagram, and what the socket reads.
pub mod Laws
use gouter.Base.{
  ℕ, ◌-◌, Bool, true, false, List, [], ◌∷◌, Option, none, some, String, ltb, if◌then◌else◌, length,
}
use gouter.Base.Dict.{insert, delete}
use gouter.Netip.{Addr, addr_eq}
use gouter.Transport.{Packet, PacketType, packet_ip, packet_mpls}
use gouter.Mpls.Label.{has_label, label_entry_size}

-- `netip.AddrPort`.
pub record AddrPort : Type 0 where
  pub addr : Addr
  pub port : ℕ

-- The socket and its channel are left out: what is read and written stands below.
pub record UdpTransport : Type 0 where
  pub name : String
  pub local_addr : AddrPort
  pub peers : List (Addr × AddrPort)
  pub closed : Bool

-- `listens` tells whether the host listens at the address.
unfoldable pub new_udp_transport : String → AddrPort → Bool → Option UdpTransport
new_udp_transport name local_addr listens =
    if listens
    then some (record { name = name; local_addr = local_addr; peers = []; closed = false })
    else none

-- `Close`; `none` is the panic of a second one.
unfoldable pub close_udp : UdpTransport → Option UdpTransport
close_udp t = if t.closed then none else some (record t { closed = true })

pub mtu : ℕ
mtu = 1500 - 8 - 20

unfoldable pub add_peer : UdpTransport → Addr → AddrPort → UdpTransport
add_peer t addr peer_addr = record t { peers = insert addr peer_addr t.peers }

pub remove_peer : UdpTransport → Addr → UdpTransport
remove_peer t addr = record t { peers = delete addr t.peers }

-- An error of a write: the text that it carries.
pub record WriteError : Type 0 where
  pub text : String

module _ (accepts : AddrPort → List ℕ → Bool) where
  -- The loop of `sendRaw` over the peers: the datagrams that were sent, and its error, which stays
  -- nil: a refusal is logged and the next peer is tried.
  unfoldable pub send_raw :
      List (Addr × AddrPort) → List ℕ → List (AddrPort × List ℕ) × Option WriteError
  send_raw [] bytes = ([], none)
  send_raw ((_, peer_addr) ∷ peers) bytes =
      let others = send_raw peers bytes in
      if accepts peer_addr bytes then ((peer_addr, bytes) ∷ [], none) else others

  -- `Write`: the datagrams that were sent, and its error, `none` for nil.
  unfoldable pub write : UdpTransport → Packet → List (AddrPort × List ℕ) × Option WriteError
  write t pkt = elim pkt.kind [
    | packet_ip ↦ ([], none)
    | packet_mpls ↦ if has_label pkt.bytes then send_raw t.peers pkt.bytes else ([], none)
  ]

-- What `ReadFromUDP` comes back with: a datagram, an error, or an error after `Close`.
pub data Event : Type 0 where
  datagram : List ℕ → Event
  failed closed : Event

-- The packets that `readLoop` hands to the reader's channel.
unfoldable pub read_loop : String → List Event → List Packet
read_loop name [] = []
read_loop name (datagram bytes ∷ es) =
    let rest = read_loop name es in
    if ltb (length bytes) label_entry_size
    then rest
    else record { kind = packet_mpls; bytes = bytes; transport = name } ∷ rest
read_loop name (failed ∷ es) = read_loop name es
read_loop name (closed ∷ es) = []
