-- ===== src/Wg/Transport.antt =====
-- internal/wg/transport.go: the transport over the TUN device. The device of wireguard-go is not
-- here: it reads and writes the TUN.
pub mod Pipeline
pub mod Delivery
use gouter.Base.{
  nat_eq, ℕ, ◌≡◌, ◌<◌, Bool, true, false, List, [], ◌∷◌, ◌++◌, Option, none, some, String, ◌==◌,
  if◌then◌else◌, ltb, length,
}
use gouter.Transport.{Packet, packet_ip}
use gouter.Wg.Tun.{MemTun, new_mem_tun, close, channel_size}

pub record WgTransport : Type 0 where
  pub name : String
  pub mtu : ℕ
  pub tun : MemTun
  pub reader : List Packet

abbrev pub default_mtu : ℕ
default_mtu = 1420

-- For an `mtu` that is not negative; the source takes a negative one for 0.
pub new_transport : String → ℕ → WgTransport
new_transport name mtu =
    let m = if mtu == 0 then default_mtu else mtu in
    record { name = name; mtu = m; tun = new_mem_tun name m; reader = [] }

-- How a `Write` ends: the packet waits for the device, `ErrTooManySegments` since the TUN is
-- closed, or it waits for room. With room in a closed TUN the runtime picks, by `picks_send`.
pub data Sent : Type 0 where
  sent : Sent
  too_many_segments : Sent
  waits_for_room : Sent

unfoldable pub write_out : WgTransport → Bool → Packet → WgTransport × Sent
write_out t picks_send pkt =
    let queued = record t {
      tun = record t.tun { outbound = t.tun.outbound ++ (pkt.bytes ∷ []) };
    } in
    if ltb (length t.tun.outbound) channel_size
    then (if t.tun.closed
        then (if picks_send then (queued, sent) else (t, too_many_segments))
        else (queued, sent))
    else (if t.tun.closed then (t, too_many_segments) else (t, waits_for_room))

pub close_transport : WgTransport → WgTransport
close_transport t = record t { tun = close t.tun }

-- The packet that `readLoop` makes of what it takes from the TUN.
pub as_packet : String → List ℕ → Packet
as_packet name bytes = record { kind = packet_ip; bytes = bytes; transport = name }

-- The goroutines around the two channels: the device that writes the TUN, `readLoop`, and the
-- router's reader. `in_hand` is what `readLoop` took and has not handed over; `accepted` is all
-- that the device wrote and `delivered` all that the router read, since the start.
pub record Pipe : Type 0 where
  pub name : String
  pub inbound : List (List ℕ)
  pub in_hand : Option (List ℕ)
  pub reader : List Packet
  pub closed : Bool
  pub running : Bool
  pub accepted : List (List ℕ)
  pub delivered : List Packet

-- `Up` starts `readLoop` on empty channels.
unfoldable pub start : String → Pipe
start name = record {
  name = name;
  inbound = [];
  in_hand = none;
  reader = [];
  closed = false;
  running = true;
  accepted = [];
  delivered = [];
}

-- The steps of `readLoop`, which ends once it sees that the TUN is closed, and of the router's reader.
pub data Moves (s t : Pipe) : Type 0 where
  takes :
      (bytes : List ℕ) (rest : List (List ℕ))
      → s.running ≡ true
      → s.in_hand ≡ none
      → s.inbound ≡ bytes ∷ rest
      → t ≡ record s { inbound = rest; in_hand = some bytes }
      → Moves s t
  hands_over :
      (bytes : List ℕ)
      → s.in_hand ≡ some bytes
      → length s.reader < channel_size
      → t ≡ record s { in_hand = none; reader = s.reader ++ (as_packet s.name bytes ∷ []) }
      → Moves s t
  quits :
      s.running ≡ true
      → s.in_hand ≡ none
      → s.closed ≡ true
      → t ≡ record s { running = false }
      → Moves s t
  router_reads :
      (pkt : Packet) (rest : List Packet)
      → s.reader ≡ pkt ∷ rest
      → t ≡ record s { reader = rest; delivered = s.delivered ++ (pkt ∷ []) }
      → Moves s t

-- The steps of all: the device writes a packet where the TUN has room, and `Close` closes the TUN.
pub data Step (s t : Pipe) : Type 0 where
  moves : Moves s t → Step s t
  device_writes :
      (bytes : List ℕ)
      → length s.inbound < channel_size
      → t ≡ record s { inbound = s.inbound ++ (bytes ∷ []); accepted = s.accepted ++ (bytes ∷ []) }
      → Step s t
  closes : t ≡ record s { closed = true } → Step s t

pub data Reach (s : Pipe) : Pipe → Type 0 where
  here : Reach s s
  next : {t u : Pipe} → Reach s t → Step t u → Reach s u
