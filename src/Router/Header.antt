-- ===== src/Router/Header.antt =====
-- The bytes of an IP packet in internal/router/router.go: the version and destination, the TTL, the
-- header checksum, and what a payload under a label looks like.
pub mod Verify
use gouter.Base.{
  nat_eq, ℕ, ◌+◌, ◌-◌, ◌||◌, List, Option, none, some, ◌==◌, ltb, if◌then◌else◌, length, get_or,
  set, take, drop, u8, shr,
}
use gouter.Netip.{Addr, addr_from_slice}
use gouter.Transport.{PacketType, packet_ip, packet_mpls}
use gouter.Mpls.Label.{has_label}
use gouter.Checksum.{checksum}

abbrev pub byte_at : List ℕ → ℕ → ℕ
byte_at bytes i = get_or bytes i 0

-- `data[lo:hi]`.
abbrev pub slice : ℕ → ℕ → List ℕ → List ℕ
slice lo hi bytes = take (hi - lo) (drop lo bytes)

-- `data[lo:hi]` where the bytes up to `hi` are there; `none` is the panic of a slice out of range.
unfoldable pub checked_slice : ℕ → ℕ → List ℕ → Option (List ℕ)
checked_slice lo hi bytes = if ltb (length bytes) hi then none else some (slice lo hi bytes)

-- The destination of a header of this version, with where its TTL stands.
unfoldable pub read_dst : ℕ → ℕ → ℕ → ℕ → List ℕ → Option (Option (ℕ × Addr × ℕ))
read_dst version lo hi ttl_idx bytes = elim (checked_slice lo hi bytes) [
  | none ↦ none
  | some dst ↦ some (some (version, addr_from_slice dst, ttl_idx))
]

-- The switch on the version: the version, the destination, and where the TTL stands; `some none` is
-- a packet that is given up, and `none` the panic of an index or a slice out of range.
unfoldable pub read_header : List ℕ → Option (Option (ℕ × Addr × ℕ))
read_header bytes =
    if ltb (length bytes) 1
    then none
    else (let version = shr (byte_at bytes 0) 4 in
        if version == 4
        then (if ltb (length bytes) 20 then some none else read_dst 4 16 20 8 bytes)
        else (if version == 6
            then (if ltb (length bytes) 40 then some none else read_dst 6 24 40 7 bytes)
            else some none))

-- The decrement of the byte, in a packet that has it.
unfoldable pub decrement_at : ℕ → List ℕ → List ℕ
decrement_at i bytes = set bytes i (u8 (byte_at bytes i + 255))

-- `pkt.Data[ttlIdx]--`; `none` is the panic where there is no such byte.
unfoldable pub decrement : ℕ → List ℕ → Option (List ℕ)
decrement i bytes = if ltb i (length bytes) then some (decrement_at i bytes) else none

-- The new checksum of the first twenty bytes, in a packet that has them.
unfoldable pub refresh_checksum : List ℕ → List ℕ
refresh_checksum bytes =
    let cleared = set (set bytes 10 0) 11 0 in
    let cs = checksum (take 20 cleared) in set (set cleared 10 (u8 (shr cs 8))) 11 (u8 cs)

-- The new checksum; `none` is the panic where the twenty bytes are not there.
unfoldable pub refresh : List ℕ → Option (List ℕ)
refresh bytes = if ltb (length bytes) 20 then none else some (refresh_checksum bytes)

unfoldable pub detect_packet_type : List ℕ → PacketType
detect_packet_type bytes =
    if ltb (length bytes) 1
    then packet_ip
    else (let v = shr (byte_at bytes 0) 4 in
        if v == 4 || v == 6
        then packet_ip
        else (if has_label bytes then packet_mpls else packet_ip))
