-- ===== src/Primitives/Twos.antt =====
-- Two's complement at a width of 1 to 256 bits (crates/quai-primitives/src/encoding.rs).
-- A U256 is a native number below 2 ^ 256; a conjunction with 2 ^ n - 1 is a remainder.
pub mod Powers
pub mod Encoded
pub mod Exact
use quai_rust_sdk.Prelude.{
  ℕ, ◌+◌, ◌-◌, ◌/◌, ◌%◌, ◌^◌, ◌==◌, ltb, Bool, true, false, not, ◌&&◌, ◌||◌, if◌then◌else◌, Result,
  ok, err, ◌>>=◌, ◌>>◌, reject_if,
}
use quai_rust_sdk.Primitives.Amount.{AmountError, SignedUnits, signed_units}
use quai_rust_sdk.Primitives.Encoding.{EncodingError, bounds}

unfoldable pub mask : ℕ → ℕ → Result EncodingError ℕ
mask value bits =
    if bits == 0
    then ok 0
    else if bits == 256
    then ok value
    else if ltb bits 256
    then ok (value % 2 ^ bits)
    else err bounds

-- `(!value).wrapping_add(U256::from(1))`
abbrev pub negate : ℕ → ℕ
negate value = (2 ^ 256 - 1 - value + 1) % 2 ^ 256

-- `!(1..=256).contains(&bits)`
abbrev pub is_bad_width : ℕ → Bool
is_bad_width bits = bits == 0 || ltb 256 bits

unfoldable pub to_twos : SignedUnits → ℕ → Result EncodingError ℕ
unfolding mask
to_twos value bits =
    reject_if (is_bad_width bits) bounds
    >> (reject_if (not (ltb value.magnitude (2 ^ 256))) bounds
        >> (let limit = 2 ^ (bits - 1) in
            reject_if
              (ltb limit value.magnitude || (not value.negative && value.magnitude == limit)) bounds
            >> (if value.negative then mask (negate value.magnitude) bits else ok value.magnitude)))

-- `.map_err(|_| EncodingError::Bounds)`
abbrev pub or_bounds : Result AmountError SignedUnits → Result EncodingError SignedUnits
or_bounds (ok v) = ok v
or_bounds (err _) = err bounds

-- `value.bit(i)`
abbrev pub bit : ℕ → ℕ → Bool
bit value i = value / 2 ^ i % 2 == 1

unfoldable pub from_twos : ℕ → ℕ → Result EncodingError SignedUnits
unfolding mask signed_units
from_twos value bits =
    reject_if (is_bad_width bits) bounds
    >> (mask value bits >>= λ low.
        reject_if (not (low == value)) bounds
        >> (let negative = bit value (bits - 1) in
            (if negative then mask (negate value) bits else ok value) >>= λ magnitude.
            or_bounds (signed_units negative magnitude)))
