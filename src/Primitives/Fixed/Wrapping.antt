-- ===== src/Primitives/Fixed/Wrapping.antt =====
-- Fixed-point arithmetic that wraps at the width (crates/quai-primitives/src/fixed.rs).
use quai_rust_sdk.Prelude.{
  ℕ, ◌-◌, ◌/◌, ◌%◌, ◌^◌, ◌==◌, Bool, true, false, not, ◌&&◌, if◌then◌else◌, Result, ◌>>=◌, ◌>>◌,
  reject_if,
}
use quai_rust_sdk.Primitives.Twos.{bit}
use quai_rust_sdk.Primitives.Fixed.{
  FixedFormat, FixedError, division_by_zero, FixedPoint, parts, is_zero, tens, scaled_up, format_eq,
  same, sum_parts, differ, product,
}

unfoldable pub wrapping_parts : Bool → ℕ → FixedFormat → Result FixedError FixedPoint
unfolding parts
wrapping_parts negative magnitude format =
    let modulus = 2 ^ format.width in
    let low = magnitude % modulus in
    let residue = if negative && not (low == 0) then modulus - low else low in
    if format.is_signed && bit residue (format.width - 1)
    then parts true (modulus - residue) format
    else parts false residue format

unfoldable pub wrapping_add : FixedPoint → FixedPoint → Result FixedError FixedPoint
unfolding sum_parts wrapping_parts format_eq
wrapping_add x y = do
  same x y
  (negative, value) ← sum_parts x.units y.units.negative y.units.magnitude
  wrapping_parts negative value x.format

unfoldable pub wrapping_sub : FixedPoint → FixedPoint → Result FixedError FixedPoint
unfolding sum_parts wrapping_parts format_eq
wrapping_sub x y = do
  same x y
  (negative, value) ← sum_parts x.units (not y.units.negative) y.units.magnitude
  wrapping_parts negative value x.format

unfoldable pub wrapping_mul : FixedPoint → FixedPoint → Result FixedError FixedPoint
unfolding wrapping_parts format_eq tens
wrapping_mul x y = do
  same x y
  value ← product x y
  wrapping_parts (differ x y) (value / tens x.format.unit.decimals) x.format

unfoldable pub wrapping_div : FixedPoint → FixedPoint → Result FixedError FixedPoint
unfolding wrapping_parts format_eq tens
wrapping_div x y = do
  same x y
  reject_if (is_zero y) division_by_zero
  value ← scaled_up x.units.magnitude x.format.unit
  wrapping_parts (differ x y) (value / y.units.magnitude) x.format
