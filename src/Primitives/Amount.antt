-- ===== src/Primitives/Amount.antt =====
-- Exact decimal amounts (crates/quai-primitives/src/amount.rs).
-- A text is the list of its UTF-8 bytes; a U512 or U256 is a native number below its bound.
pub mod Exact
pub mod Digits
pub mod Complete
use quai_rust_sdk.Prelude.{
  ℕ, zero, suc, ◌+◌, ◌-◌, ◌*◌, ◌^◌, Bool, true, false, not, ◌&&◌, ◌||◌, ◌==◌, leb, ltb,
  if◌then◌else◌, List, [], ◌∷◌, ◌++◌, length, replicate, Option, none, some, Result, ok, err, ◌>>=◌,
  ◌>>◌, reject_if, ok_or,
}

pub data AmountError : Type 0 where
  invalid_syntax invalid_unit precision_loss overflow negative_amount input_too_long : AmountError

pub record DecimalUnit : Type 0 where
  pub decimals : ℕ

abbrev pub new_unit : ℕ → Result AmountError DecimalUnit
new_unit decimals =
    if ltb 80 decimals then err invalid_unit else ok (record { decimals = decimals })

abbrev pub quai_unit : DecimalUnit
quai_unit = record { decimals = 18 }

abbrev pub qi_unit : DecimalUnit
qi_unit = record { decimals = 3 }

pub record SignedUnits : Type 0 where
  pub negative : Bool
  pub magnitude : ℕ

-- `SignedUnits::new`: from -2 ^ 511 to 2 ^ 511 - 1, with zero positive.
unfoldable pub signed_units : Bool → ℕ → Result AmountError SignedUnits
signed_units negative magnitude = do
  reject_if (ltb (2 ^ 511) magnitude || (not negative && magnitude == 2 ^ 511)) overflow
  ok (record { negative = negative && not (magnitude == 0); magnitude = magnitude })

unfoldable pub try_u256 : SignedUnits → Result AmountError ℕ
try_u256 units = do
  reject_if units.negative negative_amount
  reject_if (not (ltb units.magnitude (2 ^ 256))) overflow
  ok units.magnitude

abbrev pub is_digit : ℕ → Bool
is_digit b = leb 48 b && leb b 57

unfoldable pub all_digits : List ℕ → Bool
all_digits [] = true
all_digits (b ∷ bs) = is_digit b && all_digits bs

-- `tail.iter().any(|&b| b != b'0')` of the bytes from `scale` on.
unfoldable pub has_excess : ℕ → List ℕ → Bool
has_excess scale [] = false
has_excess zero (b ∷ bs) = not (b == 48) || has_excess zero bs
has_excess (suc scale) (b ∷ bs) = has_excess scale bs

-- The fractional digits up to `scale`, filled with zeros.
unfoldable pub scaled : ℕ → List ℕ → List ℕ
scaled zero bs = []
scaled (suc scale) [] = 48 ∷ scaled scale []
scaled (suc scale) (b ∷ bs) = b ∷ scaled scale bs

-- `split_once('.')`, with an empty fraction where there is no point.
unfoldable pub split_point : List ℕ → List ℕ × List ℕ
split_point [] = ([], [])
split_point (b ∷ bs) =
    let (whole, fractional) = split_point bs in
    if b == 46 then ([], bs) else (b ∷ whole, fractional)

abbrev pub starts_with_minus : List ℕ → Bool
starts_with_minus [] = false
starts_with_minus (b ∷ bs) = b == 45

abbrev pub without_sign : List ℕ → List ℕ
without_sign [] = []
without_sign (b ∷ bs) = if b == 45 then bs else b ∷ bs

abbrev pub is_nothing : List ℕ → Bool
is_nothing [] = true
is_nothing (b ∷ bs) = false

-- `checked_mul(10)` and `checked_add(digit)` on a U512.
abbrev pub push_digit : ℕ → ℕ → Option ℕ
push_digit v b = if ltb (v * 10 + (b - 48)) (2 ^ 512) then some (v * 10 + (b - 48)) else none

unfoldable pub accumulate : ℕ → List ℕ → Result AmountError ℕ
accumulate v [] = ok v
accumulate v (b ∷ bs) = do v' ← ok_or (push_digit v b) overflow; accumulate v' bs

unfoldable pub parse_signed_units : List ℕ → DecimalUnit → Result AmountError SignedUnits
unfolding split_point all_digits has_excess scaled accumulate signed_units
parse_signed_units value unit = do
  reject_if (ltb 512 (length value)) input_too_long
  let (whole, fractional) = split_point (without_sign value)
  reject_if (is_nothing whole && is_nothing fractional) invalid_syntax
  reject_if (not (all_digits (whole ++ fractional))) invalid_syntax
  reject_if (has_excess unit.decimals fractional) precision_loss
  magnitude ← accumulate 0 (whole ++ scaled unit.decimals fractional)
  signed_units (starts_with_minus value) magnitude

unfoldable pub parse_units : List ℕ → DecimalUnit → Result AmountError ℕ
unfolding parse_signed_units try_u256
parse_units value unit = parse_signed_units value unit >>= try_u256

abbrev pub parse_quai : List ℕ → Result AmountError ℕ
parse_quai value = parse_units value quai_unit

abbrev pub parse_qi : List ℕ → Result AmountError ℕ
parse_qi value = parse_units value qi_unit
