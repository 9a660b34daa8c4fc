-- ===== src/Netip/Contains.antt =====
-- What `Prefix.Contains` decides: whether the address, cut to the length of the prefix, is the
-- network of the prefix.
use gouter.Base.{
  ℕ, ◌-◌, ◌<◌, ◌≡◌, ap, Bool, true, arith, string_eq, ◌*◌, ◌^◌, ◌/◌, sym, ◌∙◌, ◌==◌, eqb, eqb_iff,
  ltb, lt→ltb, ◌&&◌,
}
use gouter.Netip.{Addr, invalid, v4, v6, Prefix, contains, addr_matches, mask_addr, masked_addr}

-- Prefixes hold no zone: `PrefixFrom` and `ParsePrefix` leave it out.
abbrev pub HasNoZone : Addr → Type 0
HasNoZone invalid = Unit
HasNoZone (v4 n) = Unit
HasNoZone (v6 n z) = z ≡ ""

addr_matches-mask :
    (k : ℕ) (p a : Addr) → HasNoZone p → addr_matches k p a ≡ true → mask_addr k a ≡ mask_addr k p
addr_matches-mask k (v4 n) (v4 m) z h =
    ap (λ (t : ℕ). v4 (t * 2 ^ (32 - k))) (sym ((eqb_iff _ _).0 h))
addr_matches-mask k (v6 n y) (v6 m z) e h = go (n / 2 ^ (128 - k)) (m / 2 ^ (128 - k)) h
  where
    go :
        (s t : ℕ)
        → (z == "" && eqb s t) ≡ true
        → v6 (t * 2 ^ (128 - k)) z ≡ v6 (s * 2 ^ (128 - k)) y
    go s t g = ground (arith, string_eq.beq_iff z "", eqb_iff s t)
addr_matches-mask k _ _ z h = cc

contains-both :
    (p : Prefix) (a : Addr)
    → contains p a ≡ true
    → (0 < p.bits_plus_one) × (addr_matches (p.bits_plus_one - 1) p.addr a ≡ true)
unfolding contains
contains-both p a h = go (addr_matches (p.bits_plus_one - 1) p.addr a) h
  where
    go : (b : Bool) → (ltb 0 p.bits_plus_one && b) ≡ true → (0 < p.bits_plus_one) × (b ≡ true)
    go b g = ground arith

contains-mask :
    (p : Prefix) (a : Addr)
    → HasNoZone p.addr
    → contains p a ≡ true
    → mask_addr (p.bits_plus_one - 1) a ≡ masked_addr p
unfolding contains
contains-mask p a z h =
    let (pos, m) = contains-both p a h in
    rw (lt→ltb 0 p.bits_plus_one pos) (addr_matches-mask (p.bits_plus_one - 1) p.addr a z m)

-- Two prefixes of one length that contain one address are of one network.
pub contains_same_network :
    (p q : Prefix) (a : Addr)
    → HasNoZone p.addr
    → HasNoZone q.addr
    → contains p a ≡ true
    → contains q a ≡ true
    → p.bits_plus_one ≡ q.bits_plus_one
    → masked_addr p ≡ masked_addr q
contains_same_network p q a z y h k e =
    sym (contains-mask p a z h) ∙ (ap (λ n. mask_addr (n - 1) a) e ∙ contains-mask q a y k)
