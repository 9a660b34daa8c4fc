-- ===== src/Wg/Tun.antt =====
-- internal/wg/tun.go: the in-memory TUN device between the router and a WireGuard device. A channel
-- of Go is the list of what waits in it; each of the two holds 256 packets.
pub mod Writes
use gouter.Base.{
  ℕ, zero, suc, ◌+◌, Bool, true, false, List, [], ◌∷◌, ◌++◌, String, if◌then◌else◌, ltb, length,
  drop, take, min, ◌-◌,
}

pub data TunEvent : Type 0 where
  event_up : TunEvent

-- The channel of events is closed when the device is.
pub record MemTun : Type 0 where
  pub inbound : List (List ℕ)
  pub outbound : List (List ℕ)
  pub closed : Bool
  pub events : List TunEvent
  pub name : String
  pub mtu : ℕ

abbrev pub channel_size : ℕ
channel_size = 256

pub new_mem_tun : String → ℕ → MemTun
new_mem_tun name mtu = record {
  inbound = [];
  outbound = [];
  closed = false;
  events = event_up ∷ [];
  name = name;
  mtu = mtu;
}

-- How a `Write` ends: all buffers written, refused since the device is closed, waiting for room
-- after `n` packets, or an offset past the end of a buffer, which panics in `make`.
pub data Written : Type 0 where
  wrote : ℕ → Written
  refused : Written
  waits_after : ℕ → Written
  panics : Written

-- The loop of `Write`, with the packets that wait and the number of those written.
pub write_loop : ℕ → ℕ → List (List ℕ) → List (List ℕ) → List (List ℕ) × Written
write_loop offset n inbound [] = (inbound, wrote n)
write_loop offset n inbound (buf ∷ bufs) =
    let rest = write_loop offset (n + 1) (inbound ++ (drop offset buf ∷ [])) bufs in
    if ltb (length buf) offset
    then (inbound, panics)
    else (if ltb (length inbound) channel_size then rest else (inbound, waits_after n))

pub after_write : MemTun → List (List ℕ) × Written → MemTun × Written
after_write t (inbound, w) = (record t { inbound = inbound }, w)

-- `Write` at an offset that is not -1.
pub write : MemTun → List (List ℕ) → ℕ → MemTun × Written
write t bufs offset =
    if t.closed then (t, refused) else after_write t (write_loop offset 0 t.inbound bufs)

-- `Close`, a `Write` at the offset -1.
pub close : MemTun → MemTun
close t = record t { closed = true }

-- How a `Read` ends: a packet of the given size in the buffer, refused, or waiting. Where a packet
-- waits in a closed device the runtime picks, by `picks_packet`.
pub data ReadResult : Type 0 where
  read_packet : List ℕ → ReadResult
  read_refused : ReadResult
  read_waits : ReadResult

-- `room` is what the buffer has after the offset; what does not fit is lost.
pub read : MemTun → Bool → ℕ → MemTun × ReadResult
read t picks_packet room = elim t.outbound [
  | [] ↦ (t, if t.closed then read_refused else read_waits)
  | pkt ∷ rest ↦
      let taken : MemTun × ReadResult =
        (record t { outbound = rest }, read_packet (take room pkt)) in
      if t.closed then (if picks_packet then taken else (t, read_refused)) else taken
]
