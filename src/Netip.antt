-- ===== src/Netip.antt =====
-- What the source uses of Go's `net/netip`: addresses, prefixes and the longest-prefix length.
pub mod Contains
use gouter.Base.{
  ℕ, suc, ◌+◌, ◌-◌, ◌*◌, ◌/◌, ◌^◌, ◌≤◌, ◌<◌, ◌≡◌, refl, ◌↔◌, Bool, true, false, not, ◌&&◌, List, [],
  ◌∷◌, Option, none, some, String, Eq, ◌==◌, nat_eq, string_eq, arith, leb, ltb, if◌then◌else◌,
  length,
}

-- `netip.Addr`: the zero value, an IPv4 address, or an IPv6 address with its zone ("" for none).
pub data Addr : Type 0 where
  invalid : Addr
  v4 : ℕ → Addr
  v6 : ℕ → String → Addr

abbrev pub addr_beq : Addr → Addr → Bool
addr_beq invalid invalid = true
addr_beq (v4 a) (v4 b) = a == b
addr_beq (v6 a z) (v6 b y) = a == b && z == y
addr_beq _ _ = false

pub addr_beq_iff : (a b : Addr) → (addr_beq a b ≡ true) ↔ (a ≡ b)
addr_beq_iff invalid invalid = (λ _. refl, λ _. refl)
addr_beq_iff (v4 a) (v4 b) = ground arith
addr_beq_iff (v6 a z) (v6 b y) = ground (arith, string_eq.beq_iff z y)
addr_beq_iff _ _ = (λ h. cc, λ h. cc)

instance abbrev pub addr_eq : Eq Addr
addr_eq = record { beq = addr_beq; beq_iff = addr_beq_iff }

-- `Addr.IsValid`, `Is4`, `Is6`, `Is4In6`.
abbrev pub is_valid : Addr → Bool
is_valid invalid = false
is_valid (v4 a) = true
is_valid (v6 a z) = true

abbrev pub is_4 : Addr → Bool
is_4 (v4 a) = true
is_4 invalid = false
is_4 (v6 a z) = false

abbrev pub is_6 : Addr → Bool
is_6 (v6 a z) = true
is_6 invalid = false
is_6 (v4 a) = false

abbrev pub is_4_in_6 : Addr → Bool
is_4_in_6 (v6 a z) = a / 2 ^ 32 == 0xffff
is_4_in_6 invalid = false
is_4_in_6 (v4 a) = false

-- The number that the bytes of a slice spell, the first byte highest.
abbrev pub big_endian : ℕ → List ℕ → ℕ
big_endian acc [] = acc
big_endian acc (b ∷ bs) = big_endian (acc * 256 + b) bs

-- `netip.AddrFromSlice`, with the zero value where it reports false.
abbrev pub addr_from_slice : List ℕ → Addr
addr_from_slice bs =
    if length bs == 4
    then v4 (big_endian 0 bs)
    else (if length bs == 16 then v6 (big_endian 0 bs) "" else invalid)

-- `netip.Prefix`, as the library keeps it: the length is kept plus one, and 0 is no prefix.
pub record Prefix : Type 0 where
  pub addr : Addr
  pub bits_plus_one : ℕ

abbrev pub prefix_beq : Prefix → Prefix → Bool
prefix_beq p q = addr_beq p.addr q.addr && p.bits_plus_one == q.bits_plus_one

pub prefix_beq_iff : (p q : Prefix) → (prefix_beq p q ≡ true) ↔ (p ≡ q)
prefix_beq_iff p q = ground (arith, addr_beq_iff p.addr q.addr)

instance abbrev pub prefix_eq : Eq Prefix
prefix_eq = record { beq = prefix_beq; beq_iff = prefix_beq_iff }

abbrev pub bit_len : Addr → ℕ
bit_len invalid = 0
bit_len (v4 a) = 32
bit_len (v6 a z) = 128

abbrev pub without_zone : Addr → Addr
without_zone (v6 a z) = v6 a ""
without_zone invalid = invalid
without_zone (v4 a) = v4 a

-- `netip.PrefixFrom` at a length that is not negative.
abbrev pub prefix_from : Addr → ℕ → Prefix
prefix_from a n = record {
  addr = without_zone a;
  bits_plus_one = if is_valid a && leb n (bit_len a) then n + 1 else 0;
}

-- The bits of two addresses agree down to the last `k`.
abbrev pub same_high : ℕ → ℕ → ℕ → Bool
same_high k a b = a / 2 ^ k == b / 2 ^ k

-- `Prefix.Contains`: no match for an invalid prefix, across families or for a zoned address.
abbrev pub addr_matches : ℕ → Addr → Addr → Bool
addr_matches bits (v4 n) (v4 m) = same_high (32 - bits) n m
addr_matches bits (v6 n y) (v6 m z) = z == "" && same_high (128 - bits) n m
addr_matches bits _ _ = false

unfoldable pub contains : Prefix → Addr → Bool
contains p a = ltb 0 p.bits_plus_one && addr_matches (p.bits_plus_one - 1) p.addr a

-- The address with all but its first `bits` bits cleared, and `Prefix.Masked().Addr()`.
abbrev pub mask_addr : ℕ → Addr → Addr
mask_addr bits invalid = invalid
mask_addr bits (v4 n) = v4 (n / 2 ^ (32 - bits) * 2 ^ (32 - bits))
mask_addr bits (v6 n y) = v6 (n / 2 ^ (128 - bits) * 2 ^ (128 - bits)) y

abbrev pub masked_addr : Prefix → Addr
masked_addr p = if ltb 0 p.bits_plus_one then mask_addr (p.bits_plus_one - 1) p.addr else invalid
