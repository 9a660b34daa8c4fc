-- ===== src/Router/Packets/Sent.antt =====
-- The packet that is routed on, byte by byte: how it differs from the one that came.
use gouter.Base.{
  string_eq, nat_eq, ℕ, zero, suc, ◌+◌, ◌/◌, ◌%◌, true, false, none, take, drop, ltb, ltb→lt,
  ltb→le, Bool-cases, ◌≤◌, ◌<◌, ◌≡◌, ◌≢◌, ◌⊎◌, refl, List, [], ◌∷◌, some, arith, length, inl, inr,
  if◌then◌else◌, IsBytes, get_or-set_self, get_or-set_ne, length-set, ◌==◌, sym, subst₂, ◌∙◌,
}
use gouter.Transport.{Packet}
use gouter.Netip.{Addr, addr_from_slice}
use gouter.Router.Header.{
  byte_at, read_header, read_dst, checked_slice, decrement_at, refresh_checksum,
}
use gouter.Router.Header.Verify.{refresh_checksum_frame}

-- The packet that is routed on: the TTL one less, and for IPv4 the checksum anew.
unfoldable pub sent_on : Packet → ℕ → ℕ → Packet
sent_on pkt version ttl_idx =
    let bytes = decrement_at ttl_idx pkt.bytes in
    record pkt { bytes = if version == 4 then refresh_checksum bytes else bytes }

-- The header of an IP packet: of version 4 with the destination in bytes 16 to 19 and the TTL in
-- byte 8, or of version 6, forty bytes long, with the destination in bytes 24 to 39 and the TTL in
-- byte 7. The version is the upper half of the first byte.
abbrev pub IsHeader : List ℕ → ℕ → Addr → ℕ → Type 0
IsHeader bytes version dst ttl_idx =
    ((byte_at bytes 0 / 16 ≡ 4)
      × (version ≡ 4)
      × (ttl_idx ≡ 8)
      × (20 ≤ length bytes)
      × (dst ≡ addr_from_slice (take 4 (drop 16 bytes))))
    ⊎ ((byte_at bytes 0 / 16 ≡ 6)
        × (version ≡ 6)
        × (ttl_idx ≡ 7)
        × (40 ≤ length bytes)
        × (dst ≡ addr_from_slice (take 16 (drop 24 bytes))))

-- Where the TTL stands is among the first twenty bytes.
pub IsHeader-bound :
    (bytes : List ℕ) {version : ℕ} {dst : Addr} {ttl_idx : ℕ}
    → IsHeader bytes version dst ttl_idx
    → (20 ≤ length bytes) × (ttl_idx < 20)
IsHeader-bound bytes (inl (_, v, t, l, _)) = (l, omega arith)
IsHeader-bound bytes (inr (_, v, t, l, _)) = (omega arith, omega arith)

-- Too short for its version, or of no version that there is.
abbrev pub HasNoHeader : List ℕ → Type 0
HasNoHeader bytes =
    (length bytes < 20)
    ⊎ (((byte_at bytes 0 / 16 ≡ 6) × (length bytes < 40))
        ⊎ ((byte_at bytes 0 / 16 ≢ 4) × (byte_at bytes 0 / 16 ≢ 6)))

read_header_v4 :
    (bytes : List ℕ)
    → byte_at bytes 0 / 16 ≡ 4
    → 20 ≤ length bytes
    → read_header bytes ≡ some (some (4, addr_from_slice (take 4 (drop 16 bytes)), 8))
unfolding read_header read_dst checked_slice
read_header_v4 bytes h l =
    let one : ltb (length bytes) 1 ≡ false = ground arith in
    let twenty : ltb (length bytes) 20 ≡ false = ground arith in
    let four : (byte_at bytes 0 / 16 == 4) ≡ true = ground arith in
    rw (one, four, twenty, read_header, read_dst, checked_slice) refl

read_header_v6 :
    (bytes : List ℕ)
    → byte_at bytes 0 / 16 ≡ 6
    → 40 ≤ length bytes
    → read_header bytes ≡ some (some (6, addr_from_slice (take 16 (drop 24 bytes)), 7))
unfolding read_header read_dst checked_slice
read_header_v6 bytes h l =
    let one : ltb (length bytes) 1 ≡ false = ground arith in
    let forty : ltb (length bytes) 40 ≡ false = ground arith in
    let four : (byte_at bytes 0 / 16 == 4) ≡ false = ground arith in
    let six : (byte_at bytes 0 / 16 == 6) ≡ true = ground arith in
    rw (one, four, six, forty, read_header, read_dst, checked_slice) refl

-- What is read of a packet with a header.
pub read_header-IsHeader :
    (bytes : List ℕ) {version ttl_idx : ℕ} {dst : Addr}
    → IsHeader bytes version dst ttl_idx
    → read_header bytes ≡ some (some (version, dst, ttl_idx))
read_header-IsHeader bytes (inl (h, v, t, l, d)) = read_header_v4 bytes h l ∙ cc (v, t, d)
read_header-IsHeader bytes (inr (h, v, t, l, d)) = read_header_v6 bytes h l ∙ cc (v, t, d)

-- Reading the header of twenty bytes or more never panics: it gives up, or finds what is there.
pub read_header_total :
    (bytes : List ℕ)
    → 20 ≤ length bytes
    → (HasNoHeader bytes × (read_header bytes ≡ some none))
      ⊎ ((version : ℕ) × (dst : Addr) × (ttl_idx : ℕ) × IsHeader bytes version dst ttl_idx
          × (read_header bytes ≡ some (some (version, dst, ttl_idx))))
unfolding read_header
read_header_total bytes l =
    let some_there : ltb (length bytes) 1 ≡ false = ground arith in
    elim (Bool-cases (byte_at bytes 0 / 16 == 4)) [
      | inl four ↦
          let head : IsHeader bytes 4 (addr_from_slice (take 4 (drop 16 bytes))) 8 =
            inl (ground arith, refl, refl, l, refl) in
          inr
            (4, addr_from_slice (take 4 (drop 16 bytes)), 8, head, read_header-IsHeader bytes head)
      | inr not_four ↦ elim (Bool-cases (byte_at bytes 0 / 16 == 6)) [
        | inr other ↦ inl (
          inr (inr (ground arith, ground arith)),
          rw (some_there, not_four, other, read_header) refl,
        )
        | inl six ↦ elim (Bool-cases (ltb (length bytes) 40)) [
          | inl short ↦ inl (
            inr (inl (ground arith, ltb→lt _ _ short)),
            rw (some_there, not_four, six, short, read_header) refl,
          )
          | inr long ↦
              let head : IsHeader bytes 6 (addr_from_slice (take 16 (drop 24 bytes))) 7 =
                inr (ground arith, refl, refl, ltb→le _ _ long, refl) in
              inr (
                6,
                addr_from_slice (take 16 (drop 24 bytes)),
                7,
                head,
                read_header-IsHeader bytes head,
              )
        ]
      ]
    ]

pub byte-lt : (bytes : List ℕ) (i : ℕ) → IsBytes bytes → byte_at bytes i < 256
byte-lt [] i b = omega arith
byte-lt (x ∷ xs) zero (h, hs) = h
byte-lt (x ∷ xs) (suc i) (h, hs) = byte-lt xs i hs

pub decrement_at-frame :
    (bytes : List ℕ) (i j : ℕ) → i ≢ j → byte_at (decrement_at i bytes) j ≡ byte_at bytes j
unfolding decrement_at
decrement_at-frame bytes i j h = get_or-set_ne bytes i j _ 0 h

pub decrement_at_self :
    (bytes : List ℕ) (i : ℕ)
    → i < length bytes
    → byte_at (decrement_at i bytes) i ≡ (byte_at bytes i + 255) % 256
unfolding decrement_at
decrement_at_self bytes i h = get_or-set_self bytes i _ 0 h

pub length-decrement_at : (bytes : List ℕ) (i : ℕ) → length (decrement_at i bytes) ≡ length bytes
unfolding decrement_at
length-decrement_at bytes i = length-set bytes i _

-- How the packet that is routed on differs from the one that came: its TTL is one less, 255 for 0,
-- its length and every other byte are as they were, but for the checksum field of IPv4.
pub record IsSentOn (pkt : Packet) (version ttl_idx : ℕ) (out : Packet) : Type 0 where
  pub hop : byte_at out.bytes ttl_idx ≡ (byte_at pkt.bytes ttl_idx + 255) % 256
  pub same_length : length out.bytes ≡ length pkt.bytes
  pub same_origin : (out.transport ≡ pkt.transport) × (out.kind ≡ pkt.kind)
  pub frame :
      (j : ℕ)
      → j ≢ ttl_idx
      → (version ≡ 6) ⊎ ((j ≢ 10) × (j ≢ 11))
      → byte_at out.bytes j ≡ byte_at pkt.bytes j

pub sent_on-v4 : (pkt : Packet) → 20 ≤ length pkt.bytes → IsSentOn pkt 4 8 (sent_on pkt 4 8)
unfolding sent_on
sent_on-v4 pkt l =
    let bytes = decrement_at 8 pkt.bytes in
    record {
      hop =
          (refresh_checksum_frame bytes 8 (omega arith) (omega arith)).0
          ∙ decrement_at_self pkt.bytes 8 (omega arith);
      same_length =
          (refresh_checksum_frame bytes 8 (omega arith) (omega arith)).1
          ∙ length-decrement_at pkt.bytes 8;
      same_origin = (refl, refl);
      frame = λ j h k. elim k [
        | inl six ↦ absurd (omega arith)
        | inr (x, y) ↦
            (refresh_checksum_frame bytes j x y).0
            ∙ decrement_at-frame pkt.bytes 8 j (λ e. h (sym e))
      ];
    }

pub sent_on-v6 : (pkt : Packet) → 20 ≤ length pkt.bytes → IsSentOn pkt 6 7 (sent_on pkt 6 7)
unfolding sent_on
sent_on-v6 pkt l = record {
  hop = decrement_at_self pkt.bytes 7 (omega arith);
  same_length = length-decrement_at pkt.bytes 7;
  same_origin = (refl, refl);
  frame = λ j h k. decrement_at-frame pkt.bytes 7 j (λ e. h (sym e));
}

-- Where the packet has a header, it is sent on with the TTL changed.
pub sent_on-header :
    (pkt : Packet) {version : ℕ} {dst : Addr} {ttl_idx : ℕ}
    → IsHeader pkt.bytes version dst ttl_idx
    → IsSentOn pkt version ttl_idx (sent_on pkt version ttl_idx)
sent_on-header pkt (inl (_, v, t, l, _)) =
    subst₂ (λ x y. IsSentOn pkt x y (sent_on pkt x y)) (sym v) (sym t) (sent_on-v4 pkt l)
sent_on-header pkt (inr (_, v, t, l, _)) =
    subst₂ (λ x y. IsSentOn pkt x y (sent_on pkt x y)) (sym v) (sym t)
      (sent_on-v6 pkt (omega arith))
