-- ===== src/Checksum/Fold.antt =====
-- Folding the carries computes the sum in one's complement.
use gouter.Base.{
  ℕ, zero, suc, ◌+◌, ◌-◌, ◌*◌, ◌/◌, ◌%◌, ◌^◌, ◌≤◌, ◌<◌, ◌≡◌, refl, sym, ◌∙◌, List, [], ◌∷◌, arith,
  eqb, bit_or, if◌then◌else◌, length, IsBytes, u32,
}
use gouter.Base.Bits.{bit_or-add}
use gouter.Checksum.{sum_words, fold_carries, fold_fuel, checksum}

-- The residue modulo 65535, with 65535 for every multiple but 0.
abbrev pub ones : ℕ → ℕ
ones s = if eqb s 0 then 0 else (s - 1) % 65535 + 1

ones_step : (s : ℕ) → s < 2 ^ 32 → ones (u32 (s % 65536 + s / 65536)) ≡ ones s
ones_step s h = ground arith

ones_small : (s : ℕ) → s < 65536 → ones s ≡ s
ones_small s h = ground arith

fold-ones : (n s : ℕ) → s < 2 ^ 32 → ones (fold_carries n s) ≡ ones s
unfolding fold_carries
fold-ones zero s h = refl
fold-ones (suc n) s h =
    ground (arith, ones_step s h, fold-ones n (u32 (s % 65536 + s / 65536)) (omega arith))

-- Three rounds leave no carry, from every 32-bit sum.
pub fold_carries_done : (s : ℕ) → s < 2 ^ 32 → fold_carries fold_fuel s < 2 ^ 16
unfolding fold_carries
fold_carries_done s h = ground arith

fold_carries-eq : (s : ℕ) → s < 2 ^ 32 → fold_carries fold_fuel s ≡ ones s
fold_carries-eq s h = sym (ones_small _ (fold_carries_done s h)) ∙ fold-ones fold_fuel s h

-- The sum of the 16-bit words, the odd byte at the end as a high byte.
unfoldable pub words : List ℕ → ℕ
words [] = 0
words (b ∷ []) = b * 256
words (hi ∷ lo ∷ rest) = hi * 256 + lo + words rest

-- As long as the bytes are few, the 32-bit sum does not wrap.
sum_words-eq :
    (sum : ℕ) (bytes : List ℕ)
    → IsBytes bytes
    → sum + length bytes * 65536 < 2 ^ 32
    → sum_words sum bytes ≡ sum + words bytes
unfolding sum_words words
sum_words-eq sum [] b h = omega arith
sum_words-eq sum (x ∷ []) b h = omega arith
sum_words-eq sum (x ∷ y ∷ rest) (hx, (hy, hs)) h =
    let word : bit_or (x * 2 ^ 8) y ≡ x * 256 + y = bit_or-add 8 x y hy in
    rw word (ground (arith, sum_words-eq (u32 (sum + (x * 256 + y))) rest hs (omega arith)))

words-lt : (bytes : List ℕ) → IsBytes bytes → words bytes ≤ length bytes * 65536
unfolding words
words-lt [] b = omega arith
words-lt (x ∷ []) b = omega arith
words-lt (x ∷ y ∷ rest) (hx, (hy, hs)) = omega (arith, words-lt rest hs)

-- On fewer than 65536 bytes the checksum is the complement of the sum of the 16-bit words in one's
-- complement: the wrap of the 32-bit sum and the end of the folding loop play no part.
pub checksum-eq :
    (bytes : List ℕ)
    → IsBytes bytes
    → length bytes < 65536
    → checksum bytes ≡ 65535 - ones (words bytes)
unfolding checksum
checksum-eq bytes b h =
    let sum : sum_words 0 bytes ≡ words bytes =
      omega (arith, sum_words-eq 0 bytes b (omega arith)) in
    let small : words bytes < 2 ^ 32 = omega (arith, words-lt bytes b) in
    rw (sum, fold_carries-eq (words bytes) small) (ground arith)
