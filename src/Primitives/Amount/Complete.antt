-- ===== src/Primitives/Amount/Complete.antt =====
-- Every amount that can be written is parsed (crates/quai-primitives/src/amount.rs).
use quai_rust_sdk.Prelude.{
  ℕ, ◌+◌, ◌-◌, ◌*◌, ◌^◌, ◌≤◌, ◌<◌, ◌≡◌, ◌↔◌, refl, sym, ◌∙◌, ap, Bool, true, false, not, ◌&&◌, ◌||◌,
  ◌==◌, ltb, lt→ltb, le→not_ltb, List, [], ◌∷◌, ◌++◌, length, All, All-split, ok, arith, inl, inr,
  >>=_iff, ok_or_iff, reject_if_iff, if_true,
}
use quai_rust_sdk.Primitives.Amount.{
  invalid_syntax, precision_loss, overflow, input_too_long, DecimalUnit, signed_units, try_u256,
  all_digits, has_excess, scaled, split_point, starts_with_minus, without_sign, is_nothing,
  push_digit, accumulate, parse_signed_units, parse_units,
}
use quai_rust_sdk.Primitives.Amount.Exact.{
  decimal, IsDigit, IsSigned, IsBody, IsParsed, decimal-append, parse_units-IsParsed,
}
use quai_rust_sdk.Primitives.Amount.Digits.{exact_lem, decimal_grows}

split_digits : (whole : List ℕ) → All IsDigit whole → split_point whole ≡ (whole, [])
unfolding split_point
split_digits [] h = refl
split_digits (b ∷ bs) ((low, high), h) =
    let other : (b == 46) ≡ false = ground arith in rw (other, split_digits bs h) refl

split_pointed :
    (whole fraction : List ℕ)
    → All IsDigit whole
    → split_point (whole ++ (46 ∷ fraction)) ≡ (whole, fraction)
unfolding split_point
split_pointed [] fraction h = refl
split_pointed (b ∷ bs) fraction ((low, high), h) =
    let other : (b == 46) ≡ false = ground arith in rw (other, split_pointed bs fraction h) refl

split_point-IsBody_eq :
    (whole fraction body : List ℕ)
    → IsBody whole fraction body
    → All IsDigit whole
    → split_point body ≡ (whole, fraction)
split_point-IsBody_eq whole fraction body (inl (none_, same)) h =
    ap split_point same ∙ split_digits whole h ∙ ap (λ xs. (whole, xs)) (sym none_)
split_point-IsBody_eq whole fraction body (inr same) h =
    ap split_point same ∙ split_pointed whole fraction h

-- A body does not start with a minus sign.
unsigned :
    (whole fraction body : List ℕ)
    → IsBody whole fraction body
    → All IsDigit whole
    → (starts_with_minus body ≡ false) × (without_sign body ≡ body)
unsigned whole fraction body (inl (_, same)) h = rw same (digits whole h)
  where
    digits :
        (xs : List ℕ) → All IsDigit xs → (starts_with_minus xs ≡ false) × (without_sign xs ≡ xs)
    digits [] h = (refl, refl)
    digits (x ∷ xs) ((low, high), h) =
        let other : (x == 45) ≡ false = ground arith in (other, rw other refl)
unsigned [] fraction body (inr same) h = rw same (refl, refl)
unsigned (x ∷ xs) fraction body (inr same) ((low, high), h) =
    let other : (x == 45) ≡ false = ground arith in rw same (other, rw other refl)

IsSigned-reads :
    (negative : Bool) (whole fraction body value : List ℕ)
    → IsSigned negative body value
    → IsBody whole fraction body
    → All IsDigit whole
    → (starts_with_minus value ≡ negative) × (without_sign value ≡ body)
IsSigned-reads negative whole fraction body value (inl (plus, same)) parts h =
    let (sign, kept) = unsigned whole fraction body parts h in
    (ap starts_with_minus same ∙ sign ∙ sym plus, ap without_sign same ∙ kept)
IsSigned-reads negative whole fraction body value (inr (minus, same)) parts h =
    (ap starts_with_minus same ∙ sym minus, ap without_sign same)

all_digits_complete : (bs : List ℕ) → All IsDigit bs → all_digits bs ≡ true
unfolding all_digits
all_digits_complete [] h = refl
all_digits_complete (b ∷ bs) ((low, high), h) = ground (arith, all_digits_complete bs h)

something : (xs ys : List ℕ) → 1 ≤ length (xs ++ ys) → (is_nothing xs && is_nothing ys) ≡ false
something [] [] h = absurd (omega arith)
something [] (y ∷ ys) h = refl
something (x ∷ xs) ys h = refl

accumulate_complete :
    (v : ℕ) (bs : List ℕ) → decimal v bs < 2 ^ 512 → accumulate v bs ≡ ok (decimal v bs)
unfolding decimal accumulate
accumulate_complete v [] h = refl
accumulate_complete v (b ∷ bs) h =
    let next = v * 10 + (b - 48) in
    let fits : ltb next (2 ^ 512) ≡ true =
      lt→ltb next (2 ^ 512) (omega (arith, h, decimal_grows next bs)) in
    (ok_or_iff (push_digit v b) overflow _ _).1
      (next, if_true (ltb next (2 ^ 512)) _ _ fits, accumulate_complete next bs h)

signed_units-small :
    (negative : Bool) (n : ℕ)
    → n < 2 ^ 256
    → (negative ≡ true → n ≡ 0)
    → signed_units negative n ≡ ok (record { negative = false; magnitude = n })
unfolding signed_units
signed_units-small negative n small zero_ =
    (reject_if_iff (ltb (2 ^ 511) n || (not negative && n == 2 ^ 511)) overflow _ _).1 (
      ground arith,
      ap (λ (b : Bool). ok (record { negative = b; magnitude = n })) (plus negative zero_),
    )
  where
    plus : (b : Bool) → (b ≡ true → n ≡ 0) → (b && not (n == 0)) ≡ false
    plus true h = let none_ = h refl in ground arith
    plus false h = refl

try_u256-small :
    (n : ℕ) → n < 2 ^ 256 → try_u256 (record { negative = false; magnitude = n }) ≡ ok n
unfolding try_u256
try_u256-small n small =
    (reject_if_iff (not (ltb n (2 ^ 256))) overflow (ok n) n).1 (ground arith, refl)

abbrev parts_of : List ℕ → List ℕ × List ℕ
parts_of value = split_point (without_sign value)

parse_complete :
    (value : List ℕ) (unit : DecimalUnit) {n : ℕ}
    → IsParsed value unit n
    → parse_units value unit ≡ ok n
unfolding parse_units parse_signed_units
parse_complete value unit {n} is =
    let (front, back) = All-split IsDigit is.whole is.fraction is.digits in
    let (sign, body) =
      IsSigned-reads is.negative is.whole is.fraction is.body value is.sign is.parts front in
    let split : parts_of value ≡ (is.whole, is.fraction) =
      ap split_point body ∙ split_point-IsBody_eq is.whole is.fraction is.body is.parts front in
    let (kept, amount) =
      exact_lem unit.decimals (decimal 0 is.whole) is.fraction n back
        (is.exact ∙ ap (λ k. k * 10 ^ unit.decimals) (decimal-append 0 is.whole is.fraction)) in
    let total : decimal 0 (is.whole ++ scaled unit.decimals is.fraction) ≡ n =
      decimal-append 0 is.whole (scaled unit.decimals is.fraction) ∙ sym amount in
    (>>=_iff (parse_signed_units value unit) try_u256 n).1 (
      record { negative = false; magnitude = n },
      (reject_if_iff (ltb 512 (length value)) input_too_long _ _).1 (
        le→not_ltb (length value) 512 is.short,
        (reject_if_iff _ invalid_syntax _ _).1 (
          ap (λ (p : List ℕ × List ℕ). is_nothing p.0 && is_nothing p.1) split
              ∙ something is.whole is.fraction is.nonempty,
          (reject_if_iff _ invalid_syntax _ _).1 (
            ap (λ (p : List ℕ × List ℕ). not (all_digits (p.0 ++ p.1))) split
                ∙ ap not (all_digits_complete (is.whole ++ is.fraction) is.digits),
            (reject_if_iff _ precision_loss _ _).1 (
              ap (λ (p : List ℕ × List ℕ). has_excess unit.decimals p.1) split ∙ kept,
              (>>=_iff _ _ (record { negative = false; magnitude = n })).1 (
                n,
                ap (λ (p : List ℕ × List ℕ). accumulate 0 (p.0 ++ scaled unit.decimals p.1)) split
                    ∙ accumulate_complete 0 (is.whole ++ scaled unit.decimals is.fraction)
                        (omega (arith, total, is.bound))
                    ∙ ap ok total,
                ap (λ (b : Bool). signed_units b n) sign
                    ∙ signed_units-small is.negative n is.bound is.nonnegative,
              ),
            ),
          ),
        ),
      ),
      try_u256-small n is.bound,
    )

-- A text parses to a chain amount exactly when it writes it. It has at most 512 bytes: a minus sign
-- or none, then decimal digits, at least one, with at most one point among or around them. The amount
-- is below 2 ^ 256 and exactly what is written: times ten to the power of the number of digits behind
-- the point, it is the number that all the digits stand for times ten to the power of the unit's
-- decimals. Behind a minus sign it is zero.
pub parse_units_iff :
    (value : List ℕ) (unit : DecimalUnit) (n : ℕ)
    → (parse_units value unit ≡ ok n) ↔ IsParsed value unit n
parse_units_iff value unit n = (parse_units-IsParsed value unit, parse_complete value unit)
