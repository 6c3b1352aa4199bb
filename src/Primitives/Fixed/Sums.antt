-- ===== src/Primitives/Fixed/Sums.antt =====
-- Sums and differences of fixed-point values are exact (crates/quai-primitives/src/fixed.rs).
use quai_rust_sdk.Prelude.{
  ℕ, ◌+◌, ◌-◌, ◌^◌, ◌≤◌, ◌==◌, leb, Bool, true, false, not, ◌&&◌, if◌then◌else◌, Result, ok, ok_or,
  ◌>>=◌, ◌>>◌, reject_if_iff, Bool-cases, ==_iff, ◌≡◌, refl, sym, ap, subst, ◌∙◌, ◌↔◌, inl, inr,
  arith, if_true, if_false, not-false, and-true,
}
use quai_rust_sdk.Prelude.Words
use quai_rust_sdk.Primitives.Amount.{SignedUnits}
use quai_rust_sdk.Primitives.Fixed.{
  FixedFormat, FixedError, overflow, format_mismatch, FixedPoint, parts, bool_eq, format_eq, same,
  sum_parts, add_parts, checked_add, checked_sub,
}
use quai_rust_sdk.Primitives.Fixed.Rounded.{added_iff}
use quai_rust_sdk.Primitives.Fixed.Exact.{
  IsFixed, IsSum, above, below, normal, normal-IsNormal, range-normal_iff, range_bound, parts_iff,
  point, signed_unique, InRange,
}

bool_eq_iff : (a b : Bool) → (bool_eq a b ≡ true) ↔ (a ≡ b)
bool_eq_iff true true = (λ _. refl, λ _. refl)
bool_eq_iff true false = (λ h. cc, λ h. cc)
bool_eq_iff false true = (λ h. cc, λ h. cc)
bool_eq_iff false false = (λ _. refl, λ _. refl)

format_eq_iff : (f g : FixedFormat) → (format_eq f g ≡ true) ↔ (f ≡ g)
unfolding format_eq
format_eq_iff f g = (
  λ h.
      let (first, decimals) =
        (and-true (bool_eq f.is_signed g.is_signed && f.width == g.width) _).0 h in
      let (signs, widths) = (and-true (bool_eq f.is_signed g.is_signed) _).0 first in
      let same_unit : f.unit ≡ g.unit = cc ((==_iff f.unit.decimals g.unit.decimals).0 decimals) in
      cc (
        (bool_eq_iff f.is_signed g.is_signed).0 signs,
        (==_iff f.width g.width).0 widths,
        same_unit,
      ),
  λ e. subst (λ k. format_eq f k ≡ true) e (itself f.is_signed),
)
  where
    itself :
        (b : Bool)
        → (bool_eq b b && f.width == f.width && f.unit.decimals == f.unit.decimals) ≡ true
    itself true = ground arith
    itself false = ground arith

-- The sum of two signed values, as a sign and a magnitude.
sum_parts_lem :
    (own : SignedUnits) (negative : Bool) (m : ℕ)
    → own.magnitude ≤ 2 ^ 256
    → m ≤ 2 ^ 256
    → (sign : Bool) × (result : ℕ) × (sum_parts own negative m ≡ ok (sign, result))
      × (above own + (if negative then 0 else m) + (if sign then result else 0)
          ≡ below own + (if negative then m else 0) + (if sign then 0 else result))
unfolding sum_parts
sum_parts_lem own negative m small other = by_signs own.negative negative own.magnitude small
  where
    outcome : Bool → Bool → ℕ → Result FixedError (Bool × ℕ)
    outcome a b n =
        if bool_eq a b
        then (ok_or (Words.checked_add 1024 n m) overflow >>= λ sum. ok (b, sum))
        else if leb m n
        then ok (a, n - m)
        else ok (b, m - n)

    alike : (b : Bool) (n : ℕ) → n ≤ 2 ^ 256 → outcome b b n ≡ ok (b, n + m)
    alike true n bound =
        ap (λ (r : Result FixedError ℕ). r >>= λ sum. ok (true, sum))
          ((added_iff n m (n + m) (omega (arith, bound, other))).1 refl)
    alike false n bound =
        ap (λ (r : Result FixedError ℕ). r >>= λ sum. ok (false, sum))
          ((added_iff n m (n + m) (omega (arith, bound, other))).1 refl)

    by_signs :
        (a b : Bool) (n : ℕ)
        → n ≤ 2 ^ 256
        → (sign : Bool) × (result : ℕ) × (outcome a b n ≡ ok (sign, result))
          × ((if a then 0 else n) + (if b then 0 else m) + (if sign then result else 0)
              ≡ (if a then n else 0) + (if b then m else 0) + (if sign then 0 else result))
    by_signs true true n bound = (true, n + m, alike true n bound, omega arith)
    by_signs false false n bound = (false, n + m, alike false n bound, omega arith)
    by_signs true false n bound = elim (Bool-cases (leb m n)) [
      | inl over ↦ (true, n - m, if_true (leb m n) _ _ over, ground arith)
      | inr under ↦ (false, m - n, if_false (leb m n) _ _ under, ground arith)
    ]
    by_signs false true n bound = elim (Bool-cases (leb m n)) [
      | inl over ↦ (false, n - m, if_true (leb m n) _ _ over, ground arith)
      | inr under ↦ (true, m - n, if_false (leb m n) _ _ under, ground arith)
    ]

above-normal : (b : Bool) (m : ℕ) → above (normal b m) ≡ (if b then 0 else m)
above-normal true m = ground arith
above-normal false m = refl

below-normal : (b : Bool) (m : ℕ) → below (normal b m) ≡ (if b then m else 0)
below-normal true m = ground arith
below-normal false m = refl

-- A value of the field with a sign and a magnitude, seen as a point and as its parts.
abbrev pub IsInRange : FixedPoint → Type 0
IsInRange z = InRange z.format.is_signed z.format.width z.units.negative z.units.magnitude

add_parts_iff :
    (x : FixedPoint) (negative : Bool) (m : ℕ) (z : FixedPoint)
    → IsFixed x
    → m ≤ 2 ^ 256
    → (add_parts x negative m ≡ ok z) ↔ (
        (z.format ≡ x.format)
        × IsFixed z
        × IsSum x.units (record { negative = negative; magnitude = m }) z.units)
unfolding add_parts
add_parts_iff x negative m z (field, normal_x, fits) other =
    let small =
      range_bound x.format.is_signed x.format.width x.units.negative x.units.magnitude field.0
        field.1 fits in
    let (sign, result, summed, equal) = sum_parts_lem x.units negative m small other in
    let up = above-normal sign result in
    let down = below-normal sign result in
    let (built, build) = parts_iff x.format sign result z field in
    let (plain, signed) = range-normal_iff x.format.is_signed x.format.width sign result in
    let run : add_parts x negative m ≡ parts sign result x.format =
      ap (λ (r : Result FixedError (Bool × ℕ)). r >>= λ (s, v). parts s v x.format) summed in
    (
      λ h.
          let (same, inside) = built (sym run ∙ h) in
          let whole : (x.format ≡ x.format)
              × IsFixed (point x.format (normal sign result))
              × IsSum x.units (record { negative = negative; magnitude = m }) (normal sign result) =
            (
              refl,
              (field, normal-IsNormal sign result, plain inside),
              omega (arith, equal, up, down),
            ) in
          subst
            (λ (p : FixedPoint).
              (p.format ≡ x.format)
              × IsFixed p
              × IsSum x.units (record { negative = negative; magnitude = m }) p.units)
            same whole,
      λ (formats, (_, normal_z, range_z), total).
          let units : normal sign result ≡ z.units =
            signed_unique (normal sign result) z.units (normal-IsNormal sign result) normal_z
              (omega (arith, equal, total, up, down)) in
          let same : z ≡ point x.format (normal sign result) = cc (formats, sym units) in
          run ∙ build (sym same, signed (subst IsInRange same range_z)),
    )

pub same_iff :
    (x y : FixedPoint) (rest : Result FixedError FixedPoint) (z : FixedPoint)
    → (same x y >> rest ≡ ok z) ↔ ((x.format ≡ y.format) × (rest ≡ ok z))
same_iff x y rest z =
    let (formats, agree) = format_eq_iff x.format y.format in
    let (accepted, accept) = not-false (format_eq x.format y.format) in
    let (split, join) = reject_if_iff (not (format_eq x.format y.format)) format_mismatch rest z in
    (
      λ h. (formats (accepted (split h).0), (split h).1),
      λ (alike, h). join (accept (agree alike), h),
    )

pub fixed_bound : (x : FixedPoint) → IsFixed x → x.units.magnitude ≤ 2 ^ 256
fixed_bound x (field, _, fits) =
    range_bound x.format.is_signed x.format.width x.units.negative x.units.magnitude field.0 field.1
      fits

-- Adding two values of fields succeeds exactly when their formats agree and the exact sum is in the
-- range of the field, and then it answers that sum.
pub checked_add_iff :
    (x y z : FixedPoint)
    → IsFixed x
    → IsFixed y
    → (checked_add x y ≡ ok z)
      ↔ ((x.format ≡ y.format) × (z.format ≡ x.format) × IsFixed z × IsSum x.units y.units z.units)
unfolding checked_add
checked_add_iff x y z fixed_x fixed_y =
    let (sum, back) =
      add_parts_iff x y.units.negative y.units.magnitude z fixed_x (fixed_bound y fixed_y) in
    let (split, join) = same_iff x y (add_parts x y.units.negative y.units.magnitude) z in
    (
      λ h.
          let (alike, added) = split h in
          let (format, fixed, total) = sum added in (alike, format, fixed, total),
      λ (alike, format, fixed, total). join (alike, back (format, fixed, total)),
    )

opposite :
    (b : Bool) (m : ℕ)
    → ((if not b then 0 else m) ≡ (if b then m else 0))
      × ((if not b then m else 0) ≡ (if b then 0 else m))
opposite true m = (refl, refl)
opposite false m = (refl, refl)

-- Subtracting succeeds exactly when the formats agree and the exact difference is in the range of
-- the field, and then it answers the value that added to the second operand gives the first.
pub checked_sub_iff :
    (x y z : FixedPoint)
    → IsFixed x
    → IsFixed y
    → (checked_sub x y ≡ ok z)
      ↔ ((x.format ≡ y.format) × (z.format ≡ x.format) × IsFixed z × IsSum z.units y.units x.units)
unfolding checked_sub
checked_sub_iff x y z fixed_x fixed_y =
    let (sum, back) =
      add_parts_iff x (not y.units.negative) y.units.magnitude z fixed_x (fixed_bound y fixed_y) in
    let (split, join) = same_iff x y (add_parts x (not y.units.negative) y.units.magnitude) z in
    let (over, under) = opposite y.units.negative y.units.magnitude in
    (
      λ h.
          let (alike, added) = split h in
          let (format, fixed, total) = sum added in
          (alike, format, fixed, omega (arith, total, over, under)),
      λ (alike, format, fixed, total).
          join (alike, back (format, fixed, omega (arith, total, over, under))),
    )
