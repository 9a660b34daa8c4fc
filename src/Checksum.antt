-- ===== src/Checksum.antt =====
-- The Internet checksum, `checksum` of internal/router/router.go (and of cmd/mplstest/main.go).
pub mod Fold
use gouter.Base.{
  ℕ, zero, suc, ◌+◌, ◌-◌, ◌*◌, ◌/◌, ◌%◌, List, [], ◌∷◌, bit_or, ltb, if◌then◌else◌, u16, u32, shr,
  shl, low_bits,
}

-- The loop over the pairs of bytes, and the odd byte after it.
unfoldable pub sum_words : ℕ → List ℕ → ℕ
sum_words sum [] = sum
sum_words sum (b ∷ []) = u32 (sum + shl b 8)
sum_words sum (hi ∷ lo ∷ rest) = sum_words (u32 (sum + bit_or (shl hi 8) lo)) rest

-- `for sum>>16 > 0`, with fuel.
unfoldable pub fold_carries : ℕ → ℕ → ℕ
fold_carries zero sum = sum
fold_carries (suc n) sum =
    let rest = fold_carries n (u32 (low_bits sum 16 + shr sum 16)) in
    if ltb 0 (shr sum 16) then rest else sum

-- Three rounds end the loop from every 32-bit sum.
abbrev pub fold_fuel : ℕ
fold_fuel = 3

unfoldable pub checksum : List ℕ → ℕ
checksum bytes = 0xffff - u16 (fold_carries fold_fuel (sum_words 0 bytes))
