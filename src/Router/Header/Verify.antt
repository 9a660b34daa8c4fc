-- ===== src/Router/Header/Verify.antt =====
-- A header with its checksum in place verifies.
use gouter.Base.{
  ℕ, ◌+◌, ◌-◌, ◌*◌, ◌%◌, ◌≤◌, ◌<◌, ◌≡◌, ◌↔◌, refl, sym, ◌∙◌, ap, List, [], ◌∷◌, ◌++◌, arith, length,
  IsBytes, u8, shr, set, get_or, length-append, length-set, set-append, take-append_length, All-set,
  All-append, All-append_left, All-append_right, get_or-set_ne, ◌≢◌,
}
use gouter.Checksum.{checksum}
use gouter.Router.Header.{refresh_checksum}
use gouter.Checksum.Fold.{ones, words, checksum-eq}

-- Twelve bytes and the rest: a header up to its checksum field.
data HeaderView : List ℕ → Type 0 where
  view :
      (b0 b1 b2 b3 b4 b5 b6 b7 b8 b9 b10 b11 : ℕ) (rest : List ℕ)
      → HeaderView (b0 ∷ b1 ∷ b2 ∷ b3 ∷ b4 ∷ b5 ∷ b6 ∷ b7 ∷ b8 ∷ b9 ∷ b10 ∷ b11 ∷ rest)

header_view : (bytes : List ℕ) → 12 ≤ length bytes → HeaderView bytes
header_view (b0 ∷ b1 ∷ b2 ∷ b3 ∷ b4 ∷ b5 ∷ b6 ∷ b7 ∷ b8 ∷ b9 ∷ b10 ∷ b11 ∷ rest) h =
    view b0 b1 b2 b3 b4 b5 b6 b7 b8 b9 b10 b11 rest
header_view bytes h = absurd (omega arith)

-- A sum, the complement of a sum that it is, and more: the whole is 0 in one's complement exactly
-- where the more is.
ones_complement : (a o : ℕ) → (65535 - ones (a + (65535 - ones a) + o) ≡ 0) ↔ (o % 65535 ≡ 0)
ones_complement a o = ground arith

-- The words of a header with a number in its checksum field.
words_field :
    (b0 b1 b2 b3 b4 b5 b6 b7 b8 b9 x y : ℕ) (rest : List ℕ)
    → words (b0 ∷ b1 ∷ b2 ∷ b3 ∷ b4 ∷ b5 ∷ b6 ∷ b7 ∷ b8 ∷ b9 ∷ x ∷ y ∷ rest)
      ≡ words (b0 ∷ b1 ∷ b2 ∷ b3 ∷ b4 ∷ b5 ∷ b6 ∷ b7 ∷ b8 ∷ b9 ∷ 0 ∷ 0 ∷ rest) + (x * 256 + y)
unfolding words
words_field b0 b1 b2 b3 b4 b5 b6 b7 b8 b9 x y rest = omega arith

words-append : (xs ys : List ℕ) → length xs % 2 ≡ 0 → words (xs ++ ys) ≡ words xs + words ys
unfolding words
words-append [] ys e = omega arith
words-append (x ∷ []) ys e = absurd (omega arith)
words-append (x ∷ y ∷ xs) ys e = omega (arith, words-append xs ys (omega arith))

abbrev cleared : List ℕ → List ℕ
cleared hdr = set (set hdr 10 0) 11 0

abbrev put_field : ℕ → List ℕ → List ℕ
put_field cs hdr = set (set hdr 10 (u8 (shr cs 8))) 11 (u8 cs)

words-put_field :
    (hdr : List ℕ) (cs : ℕ)
    → length hdr ≡ 20
    → cs < 65536
    → words (put_field cs (cleared hdr)) ≡ words (cleared hdr) + cs
words-put_field hdr cs e small = go (header_view hdr (omega arith))
  where
    go : {xs : List ℕ} → HeaderView xs → words (put_field cs (cleared xs)) ≡ words (cleared xs) + cs
    go (view b0 b1 b2 b3 b4 b5 b6 b7 b8 b9 b10 b11 rest) =
        omega (arith, words_field b0 b1 b2 b3 b4 b5 b6 b7 b8 b9 (u8 (shr cs 8)) (u8 cs) rest)

length-put : (hdr : List ℕ) (x y : ℕ) → length (set (set hdr 10 x) 11 y) ≡ length hdr
length-put hdr x y = length-set (set hdr 10 x) 11 y ∙ length-set hdr 10 x

IsBytes-put :
    (hdr : List ℕ) (x y : ℕ) → x < 256 → y < 256 → IsBytes hdr → IsBytes (set (set hdr 10 x) 11 y)
IsBytes-put hdr x y hx hy b =
    All-set (λ c. c < 256) (set hdr 10 x) 11 y hy (All-set (λ c. c < 256) hdr 10 x hx b)

put-append :
    (hdr rest : List ℕ) (x y : ℕ)
    → 12 ≤ length hdr
    → set (set (hdr ++ rest) 10 x) 11 y ≡ set (set hdr 10 x) 11 y ++ rest
put-append hdr rest x y h =
    ap (λ l. set l 11 y) (set-append hdr rest 10 x (omega arith))
    ∙ set-append (set hdr 10 x) rest 11 y (omega (arith, length-set hdr 10 x))

-- The header after the refresh.
abbrev refreshed : List ℕ → List ℕ
refreshed hdr = put_field (checksum (cleared hdr)) (cleared hdr)

-- The new checksum depends on the first twenty bytes alone, and stands in them.
refresh_checksum-append :
    (hdr rest : List ℕ) → length hdr ≡ 20 → refresh_checksum (hdr ++ rest) ≡ refreshed hdr ++ rest
unfolding refresh_checksum
refresh_checksum-append hdr rest e =
    rw
      (
        put-append hdr rest 0 0 (omega arith),
        take-append_length (cleared hdr) rest 20 (length-put hdr 0 0 ∙ e),
      )
      (put-append (cleared hdr) rest _ _ (omega (arith, length-put hdr 0 0)))

checksum-cleared :
    (hdr : List ℕ)
    → length hdr ≡ 20
    → IsBytes hdr
    → checksum (cleared hdr) ≡ 65535 - ones (words (cleared hdr))
checksum-cleared hdr e b =
    checksum-eq (cleared hdr) (IsBytes-put hdr 0 0 (omega arith) (omega arith) b)
      (omega (arith, length-put hdr 0 0))

length-refreshed : (hdr : List ℕ) → length hdr ≡ 20 → length (refreshed hdr) ≡ 20
length-refreshed hdr e = length-put (cleared hdr) _ _ ∙ (length-put hdr 0 0 ∙ e)

checksum-refreshed :
    (hdr options : List ℕ)
    → length hdr ≡ 20
    → length options ≤ 40
    → IsBytes hdr
    → IsBytes options
    → checksum (refreshed hdr ++ options)
      ≡ 65535 - ones (words (cleared hdr) + (65535 - ones (words (cleared hdr))) + words options)
checksum-refreshed hdr options e few b c =
    let cs = checksum (cleared hdr) in
    let small : cs < 65536 = omega (arith, checksum-cleared hdr e b) in
    let len : length (refreshed hdr) ≡ 20 = length-refreshed hdr e in
    let bytes : IsBytes (refreshed hdr ++ options) =
      All-append (λ x. x < 256) (refreshed hdr) options
        (IsBytes-put (cleared hdr) (u8 (shr cs 8)) (u8 cs) (omega arith) (omega arith)
          (IsBytes-put hdr 0 0 (omega arith) (omega arith) b))
        c in
    let total : words (refreshed hdr ++ options) ≡ words (refreshed hdr) + words options =
      words-append (refreshed hdr) options (rw len refl) in
    checksum-eq (refreshed hdr ++ options) bytes
      (omega (arith, length-append (refreshed hdr) options, len))
    ∙ ap (λ (t : ℕ). 65535 - ones t)
        (omega (arith, total, words-put_field hdr cs e small, checksum-cleared hdr e b))

-- The refresh changes nothing after the first twenty bytes. With no options after them the header
-- then verifies; with options, which the refresh leaves out of the sum, it verifies exactly where
-- the options add nothing to the sum.
pub checksum-refresh_checksum :
    (hdr options payload : List ℕ)
    → length hdr ≡ 20
    → IsBytes (hdr ++ options)
    → length options ≤ 40
    → (hdr' : List ℕ) × (refresh_checksum (hdr ++ (options ++ payload))
        ≡ hdr' ++ (options ++ payload))
      × (length hdr' ≡ 20)
      × ((checksum (hdr' ++ options) ≡ 0) ↔ (words options % 65535 ≡ 0))
checksum-refresh_checksum hdr options payload e bytes few = (
  refreshed hdr,
  refresh_checksum-append hdr (options ++ payload) e,
  length-refreshed hdr e,
  rw
      (checksum-refreshed hdr options e few (All-append_left (λ x. x < 256) hdr options bytes)
        (All-append_right (λ x. x < 256) hdr options bytes))
      (ones_complement (words (cleared hdr)) (words options)),
)

-- The refresh changes the two bytes of the checksum field and no other, and no length.
pub refresh_checksum_frame :
    (bytes : List ℕ) (j : ℕ)
    → j ≢ 10
    → j ≢ 11
    → (get_or (refresh_checksum bytes) j 0 ≡ get_or bytes j 0)
      × (length (refresh_checksum bytes) ≡ length bytes)
unfolding refresh_checksum
refresh_checksum_frame bytes j h k = (
  same_at (cleared bytes) _ _ ∙ same_at bytes 0 0,
  length-put (cleared bytes) _ _ ∙ length-put bytes 0 0,
)
  where
    same_at : (xs : List ℕ) (x y : ℕ) → get_or (set (set xs 10 x) 11 y) j 0 ≡ get_or xs j 0
    same_at xs x y =
        get_or-set_ne (set xs 10 x) 11 j y 0 (λ e. k (sym e))
        ∙ get_or-set_ne xs 10 j x 0 (λ e. h (sym e))
