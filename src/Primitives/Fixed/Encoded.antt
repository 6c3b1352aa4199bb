-- ===== src/Primitives/Fixed/Encoded.antt =====
-- The byte form of fixed-point values (crates/quai-primitives/src/fixed.rs).
use quai_rust_sdk.Prelude.{
  ℕ, ◌-◌, ◌/◌, ltb, false, if◌then◌else◌, List, length, Option, none, some, Result, ok, err, ◌>>=◌,
  ◌>>◌, reject_if,
}
use quai_rust_sdk.Primitives.Amount.{signed_units, try_u256}
use quai_rust_sdk.Primitives.Bytes.{drop, to_be_bytes, from_be_bytes}
use quai_rust_sdk.Primitives.Encoding.{EncodingError, strip_zeros_left}
use quai_rust_sdk.Primitives.Twos.{from_twos, to_twos}
use quai_rust_sdk.Primitives.Fixed.{FixedFormat, FixedError, overflow, FixedPoint, amount_or, parts}

-- `map_err(|_| FixedError::Overflow)` of an error of encodings.
abbrev pub or_overflow {ℓ} : {A : Type ℓ} → Result EncodingError A → Result FixedError A
or_overflow (ok a) = ok a
or_overflow (err e) = err overflow

unfoldable pub from_bytes : List ℕ → FixedFormat → Result FixedError FixedPoint
unfolding from_twos signed_units parts strip_zeros_left
from_bytes bytes format =
    reject_if (ltb 32 (length bytes)) overflow
    >> (let significant = strip_zeros_left bytes in
        reject_if (ltb (format.width / 8) (length significant)) overflow
        >> (let value = from_be_bytes significant in
            (if format.is_signed
              then or_overflow (from_twos value format.width)
              else amount_or (λ _. overflow) (signed_units false value))
            >>= λ units. parts units.negative units.magnitude format))

-- `expect`, with no answer where it panics.
abbrev pub expect {ℓ κ} : {E : Type ℓ} {A : Type κ} → Result E A → Option A
expect (ok a) = some a
expect (err e) = none

-- `to_be_bytes::<32>()` of a word, and a slice of it.
abbrev pub written : (List ℕ → List ℕ) → Option ℕ → Option (List ℕ)
written slice none = none
written slice (some value) = some (slice (to_be_bytes 32 value))

unfoldable pub to_bytes : FixedPoint → Option (List ℕ)
unfolding to_twos try_u256 to_be_bytes
to_bytes x = written (drop (32 - x.format.width / 8)) (
    if x.format.is_signed
    then expect (to_twos x.units x.format.width)
    else expect (try_u256 x.units))
