-- ===== src/Primitives/Encoding.antt =====
-- Bounded byte encodings (crates/quai-primitives/src/encoding.rs).
-- A text is the list of its bytes. A byte is below 256 and a U256 below 2 ^ 256.
pub mod Hex
use quai_rust_sdk.Prelude.{
  ℕ, suc, ◌+◌, ◌-◌, ◌*◌, ◌/◌, ◌%◌, ◌^◌, ◌==◌, leb, ltb, Bool, true, false, not, ◌&&◌, ◌||◌,
  if◌then◌else◌, List, [], ◌∷◌, ◌++◌, length, get_or, replicate, Option, none, some, Result, ok,
  err, ◌>>=◌, ◌>>◌, reject_if, ok_or,
}
use quai_rust_sdk.Prelude.Words.{checked_add}
use quai_rust_sdk.Primitives.Bytes.{take, drop}
use quai_rust_sdk.Primitives.Amount.{is_digit}

pub data EncodingError : Type 0 where
  invalid bounds too_large : EncodingError

abbrev pub max_encoding_bytes : ℕ
max_encoding_bytes = 1048576

unfoldable pub bounded : ℕ → Result EncodingError (Unit {0})
bounded n = reject_if (ltb max_encoding_bytes n) too_large

-- "0123456789abcdef"
abbrev pub hex_digits : List ℕ
hex_digits = 48 ∷ 49 ∷ 50 ∷ 51 ∷ 52 ∷ 53 ∷ 54 ∷ 55 ∷ 56 ∷ 57 ∷ 97 ∷ 98 ∷ 99 ∷ 100 ∷ 101 ∷ 102 ∷ []

unfoldable pub hex_digit : ℕ → ℕ
hex_digit n = get_or hex_digits n 0

-- The loop of `hexlify`: the high nibble of a byte, then the low one.
unfoldable pub hex_bytes : List ℕ → List ℕ
unfolding hex_digit
hex_bytes [] = []
hex_bytes (b ∷ bs) = hex_digit (b / 16) ∷ hex_digit (b % 16) ∷ hex_bytes bs

unfoldable pub hexlify : List ℕ → Result EncodingError (List ℕ)
unfolding bounded hex_bytes
hexlify bytes = bounded (length bytes) >> ok (b'0' ∷ b'x' ∷ hex_bytes bytes)

-- `is_ascii_hexdigit` and `to_ascii_lowercase`.
unfoldable pub is_hexdigit : ℕ → Bool
is_hexdigit b = is_digit b || ((leb b'a' b && leb b b'f') || (leb b'A' b && leb b b'F'))

unfoldable pub lowercase : ℕ → ℕ
lowercase b = if leb b'A' b && leb b b'Z' then b + 32 else b

unfoldable pub nibble : ℕ → ℕ
unfolding lowercase
nibble b = if is_digit b then b - b'0' else lowercase b - b'a' + 10

unfoldable pub all_hexdigits : List ℕ → Bool
unfolding is_hexdigit
all_hexdigits [] = true
all_hexdigits (b ∷ bs) = is_hexdigit b && all_hexdigits bs

-- `strip_prefix("0x")`.
unfoldable pub strip_0x : List ℕ → Option (List ℕ)
strip_0x (x ∷ y ∷ rest) = if x == b'0' && y == b'x' then some rest else none
strip_0x _ = none

-- `chunks_exact(2)`, each chunk a byte.
unfoldable pub pair_up : List ℕ → List ℕ
unfolding nibble
pair_up (x ∷ y ∷ rest) = (nibble x * 16 + nibble y) ∷ pair_up rest
pair_up _ = []

unfoldable pub get_bytes : List ℕ → Result EncodingError (List ℕ)
unfolding strip_0x all_hexdigits pair_up
get_bytes text =
    reject_if (ltb (max_encoding_bytes * 2 + 2) (length text)) too_large
    >> (ok_or (strip_0x text) invalid >>= λ digits.
        reject_if (not (length digits % 2 == 0) || not (all_hexdigits digits)) invalid
        >> ok (pair_up digits))

-- The total of `try_fold` with `checked_add` on a 64-bit usize.
unfoldable pub total_size : ℕ → List (List ℕ) → Option ℕ
total_size n [] = some n
total_size n (p ∷ ps) = elim (checked_add 64 n (length p)) [
  | none ↦ none
  | some m ↦ total_size m ps
]

unfoldable pub concat_parts : List (List ℕ) → List ℕ
concat_parts [] = []
concat_parts (p ∷ ps) = p ++ concat_parts ps

unfoldable pub concat_bytes : List (List ℕ) → Result EncodingError (List ℕ)
unfolding total_size concat_parts bounded
concat_bytes parts =
    reject_if (ltb 4096 (length parts)) too_large
    >> (ok_or (total_size 0 parts) too_large >>= λ size. bounded size >> ok (concat_parts parts))

-- `bytes.get(start..end)`.
unfoldable pub data_slice : List ℕ → ℕ → ℕ → Result EncodingError (List ℕ)
data_slice bytes start end =
    if leb start end && leb end (length bytes)
    then ok (take (end - start) (drop start bytes))
    else err bounds

unfoldable pub strip_zeros_left : List ℕ → List ℕ
strip_zeros_left [] = []
strip_zeros_left (b ∷ bs) = if b == 0 then strip_zeros_left bs else b ∷ bs

-- The zeros of the vector that the copy leaves in place.
abbrev pub padded : List ℕ → List ℕ → Bool → List ℕ
padded bytes zeros true = zeros ++ bytes
padded bytes zeros false = bytes ++ zeros

unfoldable pub pad : List ℕ → ℕ → Bool → Result EncodingError (List ℕ)
unfolding bounded
pad bytes size left =
    bounded size
    >> (reject_if (ltb size (length bytes)) bounds
        >> ok (padded bytes (replicate (size - length bytes) 0) left))

unfoldable pub zero_pad_value : List ℕ → ℕ → Result EncodingError (List ℕ)
unfolding pad
zero_pad_value bytes size = pad bytes size true

unfoldable pub zero_pad_bytes : List ℕ → ℕ → Result EncodingError (List ℕ)
unfolding pad
zero_pad_bytes bytes size = pad bytes size false
