-- ===== src/Primitives/Fixed/Exact.antt =====
-- Sums and differences of fixed-point values are exact (crates/quai-primitives/src/fixed.rs).
use quai_rust_sdk.Prelude.{
  ℕ, ◌+◌, ◌-◌, ◌^◌, ◌≤◌, ◌<◌, ◌==◌, ltb, Bool, true, false, not, ◌&&◌, ◌||◌, if◌then◌else◌, Result,
  ok, ok-injective, ◌>>=◌, ◌>>◌, reject_if, reject_if_iff, ==_iff, ◌≡◌, refl, sym, ap, ◌∙◌, ◌↔◌,
  arith, or-false,
}
use quai_rust_sdk.Primitives.Amount.{AmountError, SignedUnits, signed_units}
use quai_rust_sdk.Primitives.Twos.Encoded.{IsNormal}
use quai_rust_sdk.Primitives.Twos.Powers.{power_le, pow_pos}
use quai_rust_sdk.Primitives.Fixed.{
  FixedFormat, FixedError, overflow, FixedPoint, amount_or, limit_of, parts,
}

-- The magnitude and its sign are in the range of a field that is signed, or not.
unfoldable pub InRange : Bool → ℕ → Bool → ℕ → Type 0
InRange true width true magnitude = magnitude ≤ 2 ^ (width - 1)
InRange true width false magnitude = magnitude < 2 ^ (width - 1)
InRange false width true magnitude = magnitude ≡ 0
InRange false width false magnitude = magnitude < 2 ^ width

abbrev pub IsField : FixedFormat → Type 0
IsField format = (8 ≤ format.width) × (format.width ≤ 256)

-- A fixed-point value is in the range of its field, and its zero is not negative.
abbrev pub IsFixed : FixedPoint → Type 0
IsFixed x =
    IsField x.format
    × IsNormal x.units
    × InRange x.format.is_signed x.format.width x.units.negative x.units.magnitude

-- The parts of a signed value above and below zero, and the sum of two.
abbrev pub above : SignedUnits → ℕ
above s = if s.negative then 0 else s.magnitude

abbrev pub below : SignedUnits → ℕ
below s = if s.negative then s.magnitude else 0

abbrev pub IsSum : SignedUnits → SignedUnits → SignedUnits → Type 0
IsSum s t sum = above s + above t + below sum ≡ below s + below t + above sum

abbrev pub normal : Bool → ℕ → SignedUnits
normal negative magnitude = record {
  negative = negative && not (magnitude == 0);
  magnitude = magnitude;
}

-- The range of a field has less than 2 ^ 256 magnitudes to either side, and one more below zero.
pub range_bound :
    (s : Bool) (w : ℕ) (negative : Bool) (m : ℕ)
    → 8 ≤ w
    → w ≤ 256
    → InRange s w negative m
    → m ≤ 2 ^ 256
unfolding InRange
range_bound true w true m low high h = omega (arith, h, power_le (w - 1) (omega arith))
range_bound true w false m low high h = omega (arith, h, power_le (w - 1) (omega arith))
range_bound false w true m low high h = omega (arith, h)
range_bound false w false m low high h = omega (arith, h, power_le w high)

-- The checks of the range are passed exactly by the values of the field.
abbrev misses : Bool → ℕ → Bool → ℕ → Bool
misses s limit negative m =
    ((not s && negative) && not (m == 0)) || ltb limit m || (m == limit && not (s && negative))

passes_iff :
    (s : Bool) (w : ℕ) (negative : Bool) (m : ℕ)
    → (misses s (2 ^ (w - (if s then 1 else 0))) negative m ≡ false) ↔ InRange s w negative m
unfolding InRange
passes_iff true w true m = ground arith
passes_iff true w false m = ground arith
passes_iff false w true m = ground (arith, pow_pos (w - 0))
passes_iff false w false m =
    let same_limit : 2 ^ (w - 0) ≡ 2 ^ w = ap (λ k. 2 ^ k) (omega arith) in ground arith

-- A zero without its sign is in the same ranges.
pub range-normal_iff :
    (s : Bool) (w : ℕ) (negative : Bool) (m : ℕ)
    → InRange s w negative m ↔ InRange s w (negative && not (m == 0)) m
unfolding InRange
range-normal_iff s w false m = (λ h. h, λ h. h)
range-normal_iff s w true m = by_test (m == 0) refl
  where
    zero_fits : (s : Bool) → m ≡ 0 → InRange s w true m × InRange s w false m
    zero_fits true e = (ground arith, ground (arith, pow_pos (w - 1)))
    zero_fits false e = (ground arith, ground (arith, pow_pos w))

    by_test : (t : Bool) → (m == 0) ≡ t → InRange s w true m ↔ InRange s w (not t) m
    by_test true e = let both = zero_fits s ((==_iff m 0).0 e) in (λ _. both.1, λ _. both.0)
    by_test false e = (λ h. h, λ h. h)

pub normal-IsNormal : (negative : Bool) (m : ℕ) → IsNormal (normal negative m)
normal-IsNormal negative m = ground arith

-- Two normal values with the same difference of their parts are one.
pub signed_unique :
    (s t : SignedUnits) → IsNormal s → IsNormal t → above s + below t ≡ below s + above t → s ≡ t
signed_unique s t ns nt h =
    let (signs, magnitudes) = by_signs s.negative t.negative s.magnitude t.magnitude ns nt h in
    cc (signs, magnitudes)
  where
    by_signs :
        (a b : Bool) (m n : ℕ)
        → (a ≡ true → 0 < m)
        → (b ≡ true → 0 < n)
        → (if a then 0 else m) + (if b then n else 0) ≡ (if a then m else 0) + (if b then 0 else n)
        → (a ≡ b) × (m ≡ n)
    by_signs true true m n p q e = (refl, omega arith)
    by_signs true false m n p q e = absurd (omega (arith, p refl))
    by_signs false true m n p q e = absurd (omega (arith, q refl))
    by_signs false false m n p q e = (refl, omega arith)

abbrev pub point : FixedFormat → SignedUnits → FixedPoint
point f units = record { units = units; format = f }

abbrev of_amount : FixedFormat → Result AmountError SignedUnits → Result FixedError FixedPoint
of_amount f r = amount_or (λ _. overflow) r >>= λ units. ok (point f units)

built_lem :
    (f : FixedFormat) (negative : Bool) (m : ℕ)
    → m ≤ 2 ^ 256
    → (reject_if (not (ltb m (2 ^ 512))) overflow >> of_amount f (signed_units negative m))
      ≡ ok (point f (normal negative m))
unfolding signed_units
built_lem f negative m small = (reject_if_iff (not (ltb m (2 ^ 512))) overflow _ _).1 (
  ground arith,
  ap (of_amount f) (
      (reject_if_iff (ltb (2 ^ 511) m || (not negative && m == 2 ^ 511)) _ (ok (normal negative m))
          _).1
        ((or-false (ltb (2 ^ 511) m) _).1 (ground arith, apart negative (ground arith)), refl)),
)
  where
    apart : (b : Bool) → (m == 2 ^ 511) ≡ false → (not b && m == 2 ^ 511) ≡ false
    apart true e = refl
    apart false e = e

-- A magnitude with a sign makes a value of the field exactly when it is in its range.
pub parts_iff :
    (f : FixedFormat) (negative : Bool) (m : ℕ) (z : FixedPoint)
    → IsField f
    → (parts negative m f ≡ ok z)
      ↔ ((point f (normal negative m) ≡ z) × InRange f.is_signed f.width negative m)
unfolding parts limit_of
parts_iff f negative m z (low, high) =
    let (checked, passed) = passes_iff f.is_signed f.width negative m in
    let bound = range_bound f.is_signed f.width negative m low high in
    let (split, join) = reject_if_iff (misses f.is_signed (limit_of f) negative m) overflow _ z in
    (
      λ h.
          let (inside, built) = split h in
          (
            ok-injective (sym (built_lem f negative m (bound (checked inside))) ∙ built),
            checked inside,
          ),
      λ (same, fits). join (passed fits, built_lem f negative m (bound fits) ∙ ap ok same),
    )
