-- ===== src/Primitives/Fixed/Products.antt =====
-- Products and quotients of fixed-point values are rounded once, from the exact number
-- (crates/quai-primitives/src/fixed.rs).
use quai_rust_sdk.Prelude.{
  ℕ, ◌*◌, ◌^◌, ◌≤◌, ◌<◌, ◌==◌, ltb, Bool, Option, Result, ok, ok_or, ◌>>=◌, >>=_iff, ==_iff, ◌≡◌,
  refl, sym, ap, subst, ◌∙◌, ◌↔◌, arith, lt→ltb, if_true, leb, leb→le, ltb→lt, all_below,
  all_below_sound,
}
use native.Mathlib.Nat.{mul-le-mul}
use quai_rust_sdk.Prelude.Words
use quai_rust_sdk.Primitives.Fixed.{
  FixedFormat, FixedError, overflow, FixedPoint, Rounding, tens, rounded, parts, differ, product,
  scaled_up, checked_mul, checked_div,
}
use quai_rust_sdk.Primitives.Fixed.Rounded.{IsRounded, rounded_iff}
use quai_rust_sdk.Primitives.Fixed.Exact.{
  IsField, IsFixed, normal, normal-IsNormal, range-normal_iff, parts_iff, point,
}
use quai_rust_sdk.Primitives.Fixed.Sums.{same_iff, fixed_bound, IsInRange}

-- Below 81 decimals the product of tens does not wrap.
tens_pow : (decimals : ℕ) → decimals ≤ 80 → tens decimals ≡ 10 ^ decimals
unfolding tens all_below
tens_pow decimals small =
    (==_iff (tens decimals) (10 ^ decimals)).0
      (all_below_sound 81 (λ k. tens k == 10 ^ k) refl decimals (omega (arith, small)))

tens_bound : (decimals : ℕ) → decimals ≤ 80 → tens decimals ≤ 2 ^ 384
unfolding tens all_below
tens_bound decimals small =
    leb→le (tens decimals) (2 ^ 384)
      (all_below_sound 81 (λ k. leb (tens k) (2 ^ 384)) refl decimals (omega (arith, small)))

tens_pos : (decimals : ℕ) → decimals ≤ 80 → 0 < tens decimals
unfolding tens all_below
tens_pos decimals small =
    ltb→lt 0 (tens decimals)
      (all_below_sound 81 (λ k. ltb 0 (tens k)) refl decimals (omega (arith, small)))

multiplied_lem :
    (a b : ℕ)
    → a ≤ 2 ^ 256
    → b ≤ 2 ^ 384
    → (ok_or (Words.checked_mul 1024 a b) overflow ≡ ok (a * b)) × (a * b < 2 ^ 1024)
multiplied_lem a b first second =
    let below : a * b < 2 ^ 1024 = omega (arith, mul-le-mul first second) in
    (
      ap (λ (o : Option ℕ). ok_or o overflow)
          (if_true (ltb (a * b) (2 ^ 1024)) _ _ (lt→ltb _ _ below)),
      below,
    )

-- A result of a sign: the rounded magnitude, in the range of the field.
abbrev pub IsRoundedPoint : FixedFormat → Bool → Rounding → ℕ → ℕ → FixedPoint → Type 0
IsRoundedPoint f negative rounding value denominator z =
    (z.format ≡ f)
    × IsFixed z
    × (z.units ≡ normal negative z.units.magnitude)
    × IsRounded rounding negative value denominator z.units.magnitude

rounded_parts_iff :
    (f : FixedFormat) (negative : Bool) (mode : Rounding) (v d : ℕ) (z : FixedPoint)
    → IsField f
    → v < 2 ^ 1024
    → ((rounded v d negative mode >>= λ m. parts negative m f) ≡ ok z)
      ↔ ((0 < d) × IsRoundedPoint f negative mode v d z)
rounded_parts_iff f negative mode v d z field bounded = (
  λ h.
      let (m, answered, built) = (>>=_iff (rounded v d negative mode) _ z).0 h in
      let (positive, round_m) = (rounded_iff v d negative mode m bounded).0 answered in
      let (made, inside) = (parts_iff f negative m z field).0 built in
      let whole : IsRoundedPoint f negative mode v d (point f (normal negative m)) = (
        refl,
        (
          field,
          normal-IsNormal negative m,
          (range-normal_iff f.is_signed f.width negative m).0 inside,
        ),
        refl,
        round_m,
      ) in
      (positive, subst (IsRoundedPoint f negative mode v d) made whole),
  λ (positive, (format, (_, _, fits), units, round_m)).
      let made : z ≡ point f (normal negative z.units.magnitude) = cc (format, units) in
      (>>=_iff (rounded v d negative mode) _ z).1 (
        z.units.magnitude,
        (rounded_iff v d negative mode z.units.magnitude bounded).1 (positive, round_m),
        (parts_iff f negative z.units.magnitude z field).1 (
          sym made,
          (range-normal_iff f.is_signed f.width negative z.units.magnitude).1
              (subst IsInRange made fits),
        ),
      ),
)

-- Multiplying values of a field with at most 80 decimals succeeds exactly when the formats agree and
-- the exact product, rounded once by the policy to the units of the field, is in its range.
pub checked_mul_iff :
    (x y : FixedPoint) (rounding : Rounding) (z : FixedPoint)
    → IsFixed x
    → IsFixed y
    → x.format.unit.decimals ≤ 80
    → (checked_mul x y rounding ≡ ok z) ↔ (
        (x.format ≡ y.format)
        × IsRoundedPoint x.format
            (differ x y)
            rounding
            (x.units.magnitude * y.units.magnitude)
            (10 ^ x.format.unit.decimals)
            z)
unfolding checked_mul
checked_mul_iff x y rounding z fixed_x fixed_y small =
    let negative = differ x y in
    let exact = x.units.magnitude * y.units.magnitude in
    let scale = tens x.format.unit.decimals in
    let finish : ℕ → Result FixedError FixedPoint =
      λ n. rounded n scale negative rounding >>= λ m. parts negative m x.format in
    let (multiplied, bounded) =
      multiplied_lem x.units.magnitude y.units.magnitude (fixed_bound x fixed_x)
        (omega (arith, fixed_bound y fixed_y)) in
    let run : (product x y >>= finish) ≡ finish exact =
      ap (λ (r : Result FixedError ℕ). r >>= finish) multiplied in
    let (split, join) = same_iff x y (product x y >>= finish) z in
    let (found, find) =
      rounded_parts_iff x.format negative rounding exact scale z (fixed_x.0) bounded in
    let ten = tens_pow x.format.unit.decimals small in
    (
      λ h.
          let (alike, made) = split h in
          (
            alike,
            subst (λ k. IsRoundedPoint x.format negative rounding exact k z) ten
                (found (sym run ∙ made)).1,
          ),
      λ (alike, h). join (
        alike,
        run
            ∙ find (
              tens_pos x.format.unit.decimals small,
              subst (λ k. IsRoundedPoint x.format negative rounding exact k z) (sym ten) h,
            ),
      ),
    )

-- Dividing values of a field with at most 80 decimals succeeds exactly when the formats agree, the
-- divisor is not zero and the exact quotient, rounded once by the policy to the units of the field,
-- is in its range.
pub checked_div_iff :
    (x y : FixedPoint) (rounding : Rounding) (z : FixedPoint)
    → IsFixed x
    → x.format.unit.decimals ≤ 80
    → (checked_div x y rounding ≡ ok z) ↔ (
        (x.format ≡ y.format)
        × (0 < y.units.magnitude)
        × IsRoundedPoint x.format
            (differ x y)
            rounding
            (x.units.magnitude * 10 ^ x.format.unit.decimals)
            y.units.magnitude
            z)
unfolding checked_div
checked_div_iff x y rounding z fixed_x small =
    let negative = differ x y in
    let scale = tens x.format.unit.decimals in
    let finish : ℕ → Result FixedError FixedPoint =
      λ n. rounded n y.units.magnitude negative rounding >>= λ m. parts negative m x.format in
    let (scaled, bounded) =
      multiplied_lem x.units.magnitude scale (fixed_bound x fixed_x)
        (tens_bound x.format.unit.decimals small) in
    let run : (scaled_up x.units.magnitude x.format.unit >>= finish)
        ≡ finish (x.units.magnitude * scale) =
      ap (λ (r : Result FixedError ℕ). r >>= finish) scaled in
    let (split, join) = same_iff x y (scaled_up x.units.magnitude x.format.unit >>= finish) z in
    let (found, find) =
      rounded_parts_iff x.format negative rounding (x.units.magnitude * scale) y.units.magnitude z
        (fixed_x.0) bounded in
    let ten = tens_pow x.format.unit.decimals small in
    (
      λ h.
          let (alike, made) = split h in
          let (positive, point_z) = found (sym run ∙ made) in
          (
            alike,
            positive,
            subst
                (λ k.
                  IsRoundedPoint x.format negative rounding (x.units.magnitude * k)
                    y.units.magnitude z)
                ten point_z,
          ),
      λ (alike, positive, h). join (
        alike,
        run
            ∙ find (
              positive,
              subst
                  (λ k.
                    IsRoundedPoint x.format negative rounding (x.units.magnitude * k)
                      y.units.magnitude z)
                  (sym ten) h,
            ),
      ),
    )
