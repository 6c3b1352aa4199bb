-- ===== src/Primitives/Fixed.antt =====
-- Fixed-point decimals with explicit rounding (crates/quai-primitives/src/fixed.rs).
-- A `Wide` is a native number below 2 ^ 1024, with the wrap-around of its plain operators.
pub mod Rounded
pub mod Exact
pub mod Sums
pub mod Products
pub mod Encoded
pub mod RoundTrip
pub mod Wrapping
use quai_rust_sdk.Prelude.{
  ℕ, zero, suc, ◌+◌, ◌-◌, ◌*◌, ◌/◌, ◌%◌, ◌^◌, ◌==◌, leb, ltb, Bool, true, false, not, ◌&&◌, ◌||◌,
  if◌then◌else◌, List, length, Option, none, some, Result, ok, err, ◌>>=◌, ◌>>◌, reject_if, ok_or,
}
use Prim.Native.Nat.{compare, Ordering}
use quai_rust_sdk.Prelude.Words
use quai_rust_sdk.Primitives.Amount.{
  AmountError, DecimalUnit, new_unit, SignedUnits, signed_units, try_u256, parse_signed_units,
}
use quai_rust_sdk.Primitives.Bytes.{drop, to_be_bytes, from_be_bytes}
use quai_rust_sdk.Primitives.Encoding.{EncodingError, strip_zeros_left}
use quai_rust_sdk.Primitives.Twos.{bit, from_twos, to_twos}

pub record FixedFormat : Type 0 where
  pub is_signed : Bool
  pub width : ℕ
  pub unit : DecimalUnit

pub data Rounding : Type 0 where
  exact toward_zero floor ceiling nearest_ties_even nearest_ties_positive : Rounding

pub data FixedError : Type 0 where
  invalid_format format_mismatch overflow precision_loss division_by_zero : FixedError
  amount : AmountError → FixedError

abbrev pub bool_eq : Bool → Bool → Bool
bool_eq true b = b
bool_eq false b = not b

pub record FixedPoint : Type 0 where
  pub units : SignedUnits
  pub format : FixedFormat

-- `map_err` of an error of amounts.
abbrev pub amount_or {ℓ} :
    {A : Type ℓ} → (AmountError → FixedError) → Result AmountError A → Result FixedError A
amount_or f (ok a) = ok a
amount_or f (err e) = err (f e)

unfoldable pub new_format : Bool → ℕ → ℕ → Result FixedError FixedFormat
new_format is_signed width decimals =
    reject_if (not (leb 8 width && leb width 256) || not (width % 8 == 0)) invalid_format
    >> (amount_or (λ _. invalid_format) (new_unit decimals) >>= λ unit.
        ok (record { is_signed = is_signed; width = width; unit = unit }))

-- A product of tens, which wraps.
unfoldable pub tens : ℕ → ℕ
tens zero = 1
tens (suc decimals) = tens decimals * 10 % 2 ^ 1024

-- The test of a remainder `r` against what it lacks, `s`, with the answer for a tie.
unfoldable pub is_nearer : ℕ → ℕ → Bool → Bool
is_nearer r s tie = elim (compare r s) [
  | Ordering.gt ↦ true
  | Ordering.lt ↦ false
  | Ordering.eq ↦ tie
]

-- Whether a quotient with a remainder is increased.
unfoldable pub rounds_up : ℕ → ℕ → ℕ → Bool → Rounding → Result FixedError Bool
unfolding is_nearer
rounds_up quotient r s negative exact = err precision_loss
rounds_up quotient r s negative toward_zero = ok false
rounds_up quotient r s negative floor = ok negative
rounds_up quotient r s negative ceiling = ok (not negative)
rounds_up quotient r s negative nearest_ties_even = ok (is_nearer r s (bit quotient 0))
rounds_up quotient r s negative nearest_ties_positive = ok (is_nearer r s (not negative))

unfoldable pub rounded : ℕ → ℕ → Bool → Rounding → Result FixedError ℕ
unfolding rounds_up
rounded value denominator negative rounding =
    reject_if (denominator == 0) division_by_zero
    >> (let quotient = value / denominator in
        let r = value % denominator in
        if r == 0
        then ok quotient
        else rounds_up quotient r (denominator - r) negative rounding >>= λ up.
            ok_or (Words.checked_add 1024 quotient (if up then 1 else 0)) overflow)

-- The largest magnitude of a field, which only a negative signed value may reach.
unfoldable pub limit_of : FixedFormat → ℕ
limit_of format = 2 ^ (format.width - (if format.is_signed then 1 else 0))

unfoldable pub parts : Bool → ℕ → FixedFormat → Result FixedError FixedPoint
unfolding limit_of signed_units
parts negative magnitude format =
    let limit = limit_of format in
    reject_if
      (((not format.is_signed && negative) && not (magnitude == 0))
        || ltb limit magnitude
        || (magnitude == limit && not (format.is_signed && negative)))
      overflow
    >> (reject_if (not (ltb magnitude (2 ^ 512))) overflow
        >> (amount_or (λ _. overflow) (signed_units negative magnitude) >>= λ units.
            ok (record { units = units; format = format })))

abbrev pub parse : List ℕ → FixedFormat → Result FixedError FixedPoint
parse text format = amount_or amount (parse_signed_units text format.unit) >>= λ units.
    parts units.negative units.magnitude format

abbrev pub scaled_up : ℕ → DecimalUnit → Result FixedError ℕ
scaled_up magnitude unit = ok_or (Words.checked_mul 1024 magnitude (tens unit.decimals)) overflow

abbrev pub from_scaled_units :
    SignedUnits → DecimalUnit → FixedFormat → Result FixedError FixedPoint
from_scaled_units units source format = do
  numerator ← scaled_up units.magnitude format.unit
  magnitude ← rounded numerator (tens source.decimals) units.negative exact
  parts units.negative magnitude format

unfoldable pub compare_fixed : FixedPoint → FixedPoint → Ordering
unfolding tens
compare_fixed x y =
    let a = x.units.magnitude * tens y.format.unit.decimals % 2 ^ 1024 in
    let b = y.units.magnitude * tens x.format.unit.decimals % 2 ^ 1024 in
    if bool_eq x.units.negative y.units.negative
    then (if x.units.negative then compare b a else compare a b)
    else if x.units.negative
    then Ordering.lt
    else Ordering.gt

abbrev pub is_zero : FixedPoint → Bool
is_zero x = x.units.magnitude == 0

-- The derived equality of formats.
unfoldable pub format_eq : FixedFormat → FixedFormat → Bool
format_eq f g =
    bool_eq f.is_signed g.is_signed && f.width == g.width && f.unit.decimals == g.unit.decimals

abbrev pub same : FixedPoint → FixedPoint → Result FixedError (Unit {0})
same x y = reject_if (not (format_eq x.format y.format)) format_mismatch

unfoldable pub sum_parts : SignedUnits → Bool → ℕ → Result FixedError (Bool × ℕ)
sum_parts own negative magnitude =
    if bool_eq own.negative negative
    then (ok_or (Words.checked_add 1024 own.magnitude magnitude) overflow >>= λ sum.
        ok (negative, sum))
    else if leb magnitude own.magnitude
    then ok (own.negative, own.magnitude - magnitude)
    else ok (negative, magnitude - own.magnitude)

unfoldable pub add_parts : FixedPoint → Bool → ℕ → Result FixedError FixedPoint
unfolding sum_parts parts
add_parts x negative magnitude =
    sum_parts x.units negative magnitude >>= λ (sign, result). parts sign result x.format

abbrev pub differ : FixedPoint → FixedPoint → Bool
differ x y = not (bool_eq x.units.negative y.units.negative)

abbrev pub product : FixedPoint → FixedPoint → Result FixedError ℕ
product x y = ok_or (Words.checked_mul 1024 x.units.magnitude y.units.magnitude) overflow

unfoldable pub checked_add : FixedPoint → FixedPoint → Result FixedError FixedPoint
unfolding add_parts format_eq
checked_add x y = same x y >> add_parts x y.units.negative y.units.magnitude

unfoldable pub checked_sub : FixedPoint → FixedPoint → Result FixedError FixedPoint
unfolding add_parts format_eq
checked_sub x y = same x y >> add_parts x (not y.units.negative) y.units.magnitude

unfoldable pub checked_mul : FixedPoint → FixedPoint → Rounding → Result FixedError FixedPoint
unfolding rounded parts format_eq tens
checked_mul x y rounding = do
  same x y
  numerator ← product x y
  magnitude ← rounded numerator (tens x.format.unit.decimals) (differ x y) rounding
  parts (differ x y) magnitude x.format

unfoldable pub checked_div : FixedPoint → FixedPoint → Rounding → Result FixedError FixedPoint
unfolding rounded parts format_eq tens
checked_div x y rounding = do
  same x y
  numerator ← scaled_up x.units.magnitude x.format.unit
  magnitude ← rounded numerator y.units.magnitude (differ x y) rounding
  parts (differ x y) magnitude x.format

unfoldable pub with_format : FixedPoint → FixedFormat → Rounding → Result FixedError FixedPoint
unfolding rounded parts tens
with_format x format rounding = do
  numerator ← scaled_up x.units.magnitude format.unit
  magnitude ← rounded numerator (tens x.format.unit.decimals) x.units.negative rounding
  parts x.units.negative magnitude format

unfoldable pub round : FixedPoint → ℕ → Rounding → Result FixedError FixedPoint
unfolding rounded parts tens
round x decimals rounding =
    reject_if (ltb 80 decimals) invalid_format
    >> (if leb x.format.unit.decimals decimals
        then ok x
        else let factor = tens (x.format.unit.decimals - decimals) in
          rounded x.units.magnitude factor x.units.negative rounding >>= λ whole.
          ok_or (Words.checked_mul 1024 whole factor) overflow >>= λ magnitude.
          parts x.units.negative magnitude x.format)

unfoldable pub to_chain_units : FixedPoint → DecimalUnit → Result FixedError ℕ
unfolding new_format with_format try_u256
to_chain_units x unit = do
  format ← new_format false 256 unit.decimals
  y ← with_format x format exact
  amount_or amount (try_u256 y.units)

-- The source's `floor` and `ceiling`, which share their names with policies.
abbrev pub floor_value : FixedPoint → Result FixedError FixedPoint
floor_value x = round x 0 floor

abbrev pub ceiling_value : FixedPoint → Result FixedError FixedPoint
ceiling_value x = round x 0 ceiling
