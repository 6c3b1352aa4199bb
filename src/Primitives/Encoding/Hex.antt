-- ===== src/Primitives/Encoding/Hex.antt =====
-- Hexadecimal text and bytes are converted back and forth without loss.
use quai_rust_sdk.Prelude.{
  ℕ, suc, ◌+◌, ◌*◌, ◌/◌, ◌%◌, ◌≤◌, ◌<◌, ◌==◌, ◌≡◌, refl, sym, ap, ◌∙◌, ◌↔◌, arith, ltb, Bool, true,
  not, ◌&&◌, ◌||◌, List, [], ◌∷◌, map, length, All, all_below, all_below_sound, some, Result, ok,
  ok-injective, ◌>>=◌, >>=_iff, reject_if_iff, ok_or_iff, reject_if_passes, ltb→lt, not_ltb→le,
  le→not_ltb, subst, and-true, implies-true, or-false, not-false, ==_iff,
}
use quai_rust_sdk.Primitives.Encoding.{
  EncodingError, invalid, too_large, max_encoding_bytes, bounded, hex_digit, hex_bytes, hexlify,
  is_hexdigit, lowercase, nibble, all_hexdigits, strip_0x, pair_up, get_bytes,
}

-- Tables over the sixteen digits and over the bytes.
digit_test : ℕ → Bool
digit_test d = is_hexdigit (hex_digit d) && nibble (hex_digit d) == d

digit_table : all_below 16 digit_test ≡ true
unfolding all_below digit_test hex_digit is_hexdigit nibble lowercase
digit_table = refl

letter_test : ℕ → Bool
letter_test c = not (is_hexdigit c) || (ltb (nibble c) 16 && hex_digit (nibble c) == lowercase c)

letter_table : all_below 103 letter_test ≡ true
unfolding all_below letter_test hex_digit is_hexdigit nibble lowercase
letter_table = refl

hex_digit-IsHex : (d : ℕ) → d < 16 → (is_hexdigit (hex_digit d) ≡ true) × (nibble (hex_digit d) ≡ d)
unfolding digit_test
hex_digit-IsHex d h =
    let (hex, same) =
      (and-true (is_hexdigit (hex_digit d)) (nibble (hex_digit d) == d)).0
        (all_below_sound 16 digit_test digit_table d h) in
    (hex, (==_iff (nibble (hex_digit d)) d).0 same)

hexdigit_small : (c : ℕ) → is_hexdigit c ≡ true → c < 103
unfolding is_hexdigit
hexdigit_small c h = ground arith

nibble_lem : (c : ℕ) → is_hexdigit c ≡ true → (nibble c < 16) × (hex_digit (nibble c) ≡ lowercase c)
unfolding letter_test
nibble_lem c h =
    let (small, same) = (and-true (ltb (nibble c) 16) (hex_digit (nibble c) == lowercase c)).0 (
      implies-true (is_hexdigit c) _
        (all_below_sound 103 letter_test letter_table c (hexdigit_small c h)) h) in
    (ltb→lt (nibble c) 16 small, (==_iff (hex_digit (nibble c)) (lowercase c)).0 same)

-- The bytes of a text.
abbrev pub AreBytes : List ℕ → Type 0
AreBytes = All (λ b. b < 256)

byte_nibbles : (b : ℕ) → b < 256 → (b / 16 < 16) × (b % 16 < 16) × (b / 16 * 16 + b % 16 ≡ b)
byte_nibbles b h = (omega arith, omega arith, omega arith)

all_hexdigits-hex_bytes : (bs : List ℕ) → AreBytes bs → all_hexdigits (hex_bytes bs) ≡ true
unfolding all_hexdigits hex_bytes
all_hexdigits-hex_bytes [] h = refl
all_hexdigits-hex_bytes (b ∷ bs) (h, hs) =
    let (high, low, _) = byte_nibbles b h in
    (and-true (is_hexdigit (hex_digit (b / 16))) _).1 (
      (hex_digit-IsHex (b / 16) high).0,
      (and-true (is_hexdigit (hex_digit (b % 16))) _).1
          ((hex_digit-IsHex (b % 16) low).0, all_hexdigits-hex_bytes bs hs),
    )

pair_up-hex_bytes : (bs : List ℕ) → AreBytes bs → pair_up (hex_bytes bs) ≡ bs
unfolding pair_up hex_bytes
pair_up-hex_bytes [] h = refl
pair_up-hex_bytes (b ∷ bs) (h, hs) =
    let (high, low, whole) = byte_nibbles b h in
    cc (
      (hex_digit-IsHex (b / 16) high).1,
      (hex_digit-IsHex (b % 16) low).1,
      whole,
      pair_up-hex_bytes bs hs,
    )

length-hex_bytes : (bs : List ℕ) → length (hex_bytes bs) ≡ 2 * length bs
unfolding hex_bytes
length-hex_bytes [] = refl
length-hex_bytes (b ∷ bs) = omega (arith, length-hex_bytes bs)

hex_bytes-pair_up :
    (ds : List ℕ)
    → length ds % 2 ≡ 0
    → all_hexdigits ds ≡ true
    → (hex_bytes (pair_up ds) ≡ map lowercase ds)
      × AreBytes (pair_up ds)
      × (2 * length (pair_up ds) ≡ length ds)
unfolding hex_bytes pair_up all_hexdigits
hex_bytes-pair_up [] even h = (refl, tt, refl)
hex_bytes-pair_up (x ∷ []) even h = absurd (omega arith)
hex_bytes-pair_up (x ∷ y ∷ ds) even h =
    let (hx, h1) = (and-true (is_hexdigit x) _).0 h in
    let (hy, h2) = (and-true (is_hexdigit y) _).0 h1 in
    let (text, bytes, size) = hex_bytes-pair_up ds (omega arith) h2 in
    let (sx, ex) = nibble_lem x hx in
    let (sy, ey) = nibble_lem y hy in
    let high : (nibble x * 16 + nibble y) / 16 ≡ nibble x = omega arith in
    let low : (nibble x * 16 + nibble y) % 16 ≡ nibble y = omega arith in
    (cc (high, low, ex, ey, text), (omega arith, bytes), omega arith)

strip_0x_lem : (text digits : List ℕ) → strip_0x text ≡ some digits → text ≡ b'0' ∷ b'x' ∷ digits
unfolding strip_0x
strip_0x_lem [] digits h = cc
strip_0x_lem (x ∷ []) digits h = cc
strip_0x_lem (x ∷ y ∷ rest) digits h = ground arith

twice_even : (n m : ℕ) → m ≡ 2 * n → m % 2 ≡ 0
twice_even n m e = omega arith

pub bounded_iff : (n : ℕ) → (bounded n ≡ ok tt) ↔ (n ≤ max_encoding_bytes)
unfolding bounded
bounded_iff n = (
  λ h. not_ltb→le max_encoding_bytes n ((reject_if_passes _ too_large).0 h),
  λ h. (reject_if_passes _ too_large).1 (le→not_ltb n max_encoding_bytes h),
)

hexlify_lem :
    (bs : List ℕ) → length bs ≤ max_encoding_bytes → hexlify bs ≡ ok (b'0' ∷ b'x' ∷ hex_bytes bs)
unfolding hexlify
hexlify_lem bs h =
    (>>=_iff (bounded (length bs)) _ (b'0' ∷ b'x' ∷ hex_bytes bs)).1
      (tt, (bounded_iff (length bs)).1 h, refl)

-- A prefixed text of digits reads exactly when it has whole bytes within the limit.
get_bytes_iff :
    (text bs : List ℕ)
    → (get_bytes text ≡ ok bs) ↔ (
        (length text ≤ max_encoding_bytes * 2 + 2)
        × ((digits : List ℕ) × (strip_0x text ≡ some digits)
            × (length digits % 2 ≡ 0)
            × (all_hexdigits digits ≡ true)
            × (pair_up digits ≡ bs)))
unfolding get_bytes
get_bytes_iff text bs = (
  λ h.
      let (small, h1) = (reject_if_iff _ too_large _ bs).0 h in
      let (digits, e, h2) = (ok_or_iff (strip_0x text) invalid _ bs).0 h1 in
      let (g, same) = (reject_if_iff _ invalid _ bs).0 h2 in
      let (even, hex) =
        (or-false (not (length digits % 2 == 0)) (not (all_hexdigits digits))).0 g in
      (
        not_ltb→le (max_encoding_bytes * 2 + 2) (length text) small,
        (
          digits,
          e,
          (==_iff (length digits % 2) 0).0 ((not-false _).0 even),
          (not-false (all_hexdigits digits)).0 hex,
          ok-injective same,
        ),
      ),
  λ (small, (digits, e, even, hex, same)). (reject_if_iff _ too_large _ bs).1 (
    le→not_ltb (length text) (max_encoding_bytes * 2 + 2) small,
    (ok_or_iff (strip_0x text) invalid _ bs).1 (
      digits,
      e,
      (reject_if_iff _ invalid _ bs).1 (
        (or-false (not (length digits % 2 == 0)) (not (all_hexdigits digits))).1 (
          (not-false _).1 ((==_iff (length digits % 2) 0).1 even),
          (not-false (all_hexdigits digits)).1 hex,
        ),
        ap ok same,
      ),
    ),
  ),
)

strip_0x_same : (digits : List ℕ) → strip_0x (b'0' ∷ b'x' ∷ digits) ≡ some digits
unfolding strip_0x
strip_0x_same digits = refl

-- Bytes within the limit are written and read back.
pub get_bytes-hexlify :
    (bs : List ℕ)
    → AreBytes bs
    → length bs ≤ max_encoding_bytes
    → (hexlify bs >>= get_bytes) ≡ ok bs
get_bytes-hexlify bs bytes small =
    ap (λ (r : Result EncodingError (List ℕ)). r >>= get_bytes) (hexlify_lem bs small)
    ∙ (get_bytes_iff (b'0' ∷ b'x' ∷ hex_bytes bs) bs).1 (
      omega (arith, length-hex_bytes bs),
      (
        hex_bytes bs,
        strip_0x_same (hex_bytes bs),
        twice_even (length bs) (length (hex_bytes bs)) (length-hex_bytes bs),
        all_hexdigits-hex_bytes bs bytes,
        pair_up-hex_bytes bs bytes,
      ),
    )

prefix_lower :
    (digits : List ℕ) → map lowercase (b'0' ∷ b'x' ∷ digits) ≡ b'0' ∷ b'x' ∷ map lowercase digits
unfolding lowercase
prefix_lower digits = refl

-- A text that reads as bytes is their hexadecimal form, up to the case of its letters.
pub hexlify-get_bytes :
    (text bs : List ℕ)
    → get_bytes text ≡ ok bs
    → AreBytes bs × (hexlify bs ≡ ok (map lowercase text))
hexlify-get_bytes text bs h =
    let (small, (digits, e, even, hex, same)) = (get_bytes_iff text bs).0 h in
    let (again, bytes, size) = hex_bytes-pair_up digits even hex in
    let whole = strip_0x_lem text digits e in
    let count : length text ≡ suc (suc (length digits)) = ap length whole in
    let fits : length (pair_up digits) ≤ max_encoding_bytes = omega arith in
    (
      subst AreBytes same bytes,
      subst (λ (bs : List ℕ). hexlify bs ≡ ok (map lowercase text)) same
          (hexlify_lem (pair_up digits) fits
            ∙ ap (λ t. ok (b'0' ∷ b'x' ∷ t)) again
            ∙ ap ok (sym (ap (map lowercase) whole ∙ prefix_lower digits))),
    )
