-- ===== src/Primitives/Tests/FixedPoints.antt =====
-- Fixed-point values of eight bits with one decimal.
use quai_rust_sdk.Prelude.{
  ℕ, ◌*◌, ◌^◌, ◌≡◌, refl, arith, Bool, true, false, ok, err, ◌<◌, List, [], ◌∷◌, length, some,
}
use quai_rust_sdk.Primitives.Fixed.{
  FixedFormat, FixedPoint, precision_loss, overflow, floor, exact, nearest_ties_even, rounded,
  checked_add, checked_sub, checked_mul, checked_div,
}
use quai_rust_sdk.Primitives.Fixed.Rounded.{IsRounded, rounded_iff}
use quai_rust_sdk.Primitives.Fixed.Exact.{InRange, IsFixed, IsSum}
use quai_rust_sdk.Primitives.Fixed.Sums.{checked_add_iff, checked_sub_iff}
use quai_rust_sdk.Primitives.Fixed.Encoded.{to_bytes, from_bytes}
use quai_rust_sdk.Primitives.Fixed.RoundTrip.{from_bytes-to_bytes}
use quai_rust_sdk.Primitives.Fixed.Products.{IsRoundedPoint, checked_mul_iff, checked_div_iff}

abbrev tenths : FixedFormat
tenths = record { is_signed = true; width = 8; unit = record { decimals = 1 } }

abbrev point_of : Bool → ℕ → FixedPoint
point_of negative magnitude = record {
  units = record { negative = negative; magnitude = magnitude };
  format = tenths;
}

in_field : (negative : Bool) (m : ℕ) → 0 < m → m < 128 → IsFixed (point_of negative m)
unfolding InRange
in_field true m low high = ((omega arith, omega arith), (λ _. low), omega arith)
in_field false m low high = ((omega arith, omega arith), (λ e. low), omega arith)

-- Half of an odd number of units is a tie.
rounds_even : rounded 5 2 true nearest_ties_even ≡ ok 2
unfolding rounded
rounds_even = refl

rounds_exactly : rounded 5 2 true exact ≡ err precision_loss
unfolding rounded
rounds_exactly = refl

rounded_iff_example : (0 < 2) × IsRounded nearest_ties_even true 5 2 2
rounded_iff_example = (rounded_iff 5 2 true nearest_ties_even 2 (omega arith)).0 rounds_even

-- 2.5 - 4.0 is -1.5.
adds : checked_add (point_of false 25) (point_of true 40) ≡ ok (point_of true 15)
unfolding checked_add
adds = refl

checked_add_iff_example :
    (tenths ≡ tenths)
    × (tenths ≡ tenths)
    × IsFixed (point_of true 15)
    × IsSum (point_of false 25).units (point_of true 40).units (point_of true 15).units
checked_add_iff_example =
    (checked_add_iff (point_of false 25) (point_of true 40) (point_of true 15)
        (in_field false 25 (omega arith) (omega arith))
        (in_field true 40 (omega arith) (omega arith))).0
      adds

subtracts : checked_sub (point_of true 120) (point_of true 40) ≡ ok (point_of true 80)
unfolding checked_sub
subtracts = refl

leaves_range : checked_sub (point_of true 120) (point_of false 40) ≡ err overflow
unfolding checked_sub
leaves_range = refl

checked_sub_iff_example :
    (tenths ≡ tenths)
    × (tenths ≡ tenths)
    × IsFixed (point_of true 80)
    × IsSum (point_of true 80).units (point_of true 40).units (point_of true 120).units
checked_sub_iff_example =
    (checked_sub_iff (point_of true 120) (point_of true 40) (point_of true 80)
        (in_field true 120 (omega arith) (omega arith))
        (in_field true 40 (omega arith) (omega arith))).0
      subtracts

-- -2.5 times 0.3 is -0.75, and -0.8 is its floor.
multiplies : checked_mul (point_of true 25) (point_of false 3) floor ≡ ok (point_of true 8)
unfolding checked_mul
multiplies = refl

checked_mul_iff_example :
    (tenths ≡ tenths) × IsRoundedPoint tenths true floor (25 * 3) (10 ^ 1) (point_of true 8)
checked_mul_iff_example =
    (checked_mul_iff (point_of true 25) (point_of false 3) floor (point_of true 8)
        (in_field true 25 (omega arith) (omega arith))
        (in_field false 3 (omega arith) (omega arith)) (omega arith)).0
      multiplies

divides :
    checked_div (point_of true 25) (point_of false 4) nearest_ties_even ≡ ok (point_of true 62)
unfolding checked_div
divides = refl

checked_div_iff_example :
    (tenths ≡ tenths)
    × (0 < 4)
    × IsRoundedPoint tenths true nearest_ties_even (25 * 10 ^ 1) 4 (point_of true 62)
checked_div_iff_example =
    (checked_div_iff (point_of true 25) (point_of false 4) nearest_ties_even (point_of true 62)
        (in_field true 25 (omega arith) (omega arith)) (omega arith)).0
      divides

-- -2.5 in one byte.
writes : to_bytes (point_of true 25) ≡ some (231 ∷ [])
unfolding to_bytes
writes = refl

from_bytes-to_bytes_example :
    (bytes : List ℕ) × (to_bytes (point_of true 25) ≡ some bytes)
    × (length bytes ≡ 1)
    × (from_bytes bytes tenths ≡ ok (point_of true 25))
from_bytes-to_bytes_example =
    from_bytes-to_bytes (point_of true 25) (in_field true 25 (omega arith) (omega arith)) refl
