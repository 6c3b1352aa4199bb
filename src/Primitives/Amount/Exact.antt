-- ===== src/Primitives/Amount/Exact.antt =====
-- Parsing is exact (crates/quai-primitives/src/amount.rs).
use quai_rust_sdk.Prelude.{
  ℕ, ◌+◌, ◌-◌, ◌*◌, ◌^◌, ◌<◌, ◌≡◌, sym, ◌∙◌, Bool, false, not, ◌&&◌, ltb, List, [], ◌∷◌, ◌++◌,
  length, some, ok, arith, ok-injective, >>=-eq-ok, ok_or-ok, reject_if-ok, ap, subst, true, ◌≤◌,
  not_ltb→le, All, ◌⊎◌, inl, inr, Bool-cases, ◌==◌, zero, suc, refl,
}
use native.Mathlib.Nat.{pow-suc, mul_assoc, mul_comm, mul_right_comm}
use quai_rust_sdk.Primitives.Amount.{
  invalid_syntax, precision_loss, overflow, negative_amount, input_too_long, DecimalUnit,
  SignedUnits, signed_units, try_u256, all_digits, has_excess, scaled, split_point,
  starts_with_minus, without_sign, is_nothing, push_digit, accumulate, parse_signed_units,
  parse_units,
}

-- The number that some decimal digits stand for, behind `v`.
unfoldable pub decimal : ℕ → List ℕ → ℕ
decimal v [] = v
decimal v (b ∷ bs) = decimal (v * 10 + (b - 48)) bs

push_digit-some : (v b : ℕ) {w : ℕ} → push_digit v b ≡ some w → w ≡ v * 10 + (b - 48)
push_digit-some v b h = ground arith

accumulate_lem : (v : ℕ) (bs : List ℕ) {w : ℕ} → accumulate v bs ≡ ok w → w ≡ decimal v bs
unfolding accumulate decimal
accumulate_lem v [] h = sym (ok-injective h)
accumulate_lem v (b ∷ bs) {w} h =
    let (next, pushing, rest) = ok_or-ok (push_digit v b) overflow _ h in
    accumulate_lem next bs rest ∙ ap (λ v. decimal v bs) (push_digit-some v b pushing)

abbrev pub IsDigit : ℕ → Type 0
IsDigit b = (48 ≤ b) × (b ≤ 57)

-- A minus sign or none, before the body of a text.
abbrev pub IsSigned : Bool → List ℕ → List ℕ → Type 0
IsSigned negative body value =
    ((negative ≡ false) × (value ≡ body)) ⊎ ((negative ≡ true) × (value ≡ 45 ∷ body))

-- A body is its whole digits alone, or they, a point and those of the fraction.
abbrev pub IsBody : List ℕ → List ℕ → List ℕ → Type 0
IsBody whole fraction body = ((fraction ≡ []) × (body ≡ whole)) ⊎ (body ≡ whole ++ (46 ∷ fraction))

-- How an amount is written: the number that the digits stand for, divided by ten to the power of
-- the digits behind the point, is the amount over ten to the power of the unit.
pub record IsParsed (value : List ℕ) (unit : DecimalUnit) (n : ℕ) : Type 0 where
  pub negative : Bool
  pub body : List ℕ
  pub whole : List ℕ
  pub fraction : List ℕ
  pub sign : IsSigned negative body value
  pub parts : IsBody whole fraction body
  pub digits : All IsDigit (whole ++ fraction)
  pub nonempty : 1 ≤ length (whole ++ fraction)
  pub short : length value ≤ 512
  pub exact : n * 10 ^ length fraction ≡ decimal 0 (whole ++ fraction) * 10 ^ unit.decimals
  pub nonnegative : negative ≡ true → n ≡ 0
  pub bound : n < 2 ^ 256

body_front :
    (b : ℕ) (whole fraction body : List ℕ)
    → IsBody whole fraction body
    → IsBody (b ∷ whole) fraction (b ∷ body)
body_front b whole fraction body (inl (none_, same)) = inl (none_, ap (λ xs. b ∷ xs) same)
body_front b whole fraction body (inr same) = inr (ap (λ xs. b ∷ xs) same)

split_point-IsBody : (bs : List ℕ) → IsBody (split_point bs).0 (split_point bs).1 bs
unfolding split_point
split_point-IsBody [] = inl (refl, refl)
split_point-IsBody (b ∷ bs) = elim (Bool-cases (b == 46)) [
  | inl e ↦ let point : b ≡ 46 = ground arith in rw e (inr (ap (λ (k : ℕ). k ∷ bs) point))
  | inr e ↦ rw e (body_front b (split_point bs).0 (split_point bs).1 bs (split_point-IsBody bs))
]

sign_lem : (value : List ℕ) → IsSigned (starts_with_minus value) (without_sign value) value
sign_lem [] = inl (refl, refl)
sign_lem (b ∷ bs) = elim (Bool-cases (b == 45)) [
  | inl e ↦ let minus : b ≡ 45 = ground arith in rw e (inr (refl, ap (λ (k : ℕ). k ∷ bs) minus))
  | inr e ↦ rw e (inl (refl, refl))
]

all_digits-IsDigit : (bs : List ℕ) → all_digits bs ≡ true → All IsDigit bs
unfolding all_digits
all_digits-IsDigit [] h = tt
all_digits-IsDigit (b ∷ bs) h = ((ground arith, ground arith), all_digits-IsDigit bs (ground arith))

nonempty_lem : (xs ys : List ℕ) → (is_nothing xs && is_nothing ys) ≡ false → 1 ≤ length (xs ++ ys)
nonempty_lem [] [] h = cc
nonempty_lem [] (y ∷ ys) h = omega arith
nonempty_lem (x ∷ xs) ys h = omega arith

pub decimal-append : (v : ℕ) (xs ys : List ℕ) → decimal v (xs ++ ys) ≡ decimal (decimal v xs) ys
unfolding decimal
decimal-append v [] ys = refl
decimal-append v (x ∷ xs) ys = decimal-append (v * 10 + (x - 48)) xs ys

pub shift : (a k : ℕ) → a * 10 * 10 ^ k ≡ a * 10 ^ suc k
shift a k = mul_assoc a 10 (10 ^ k) ∙ ap (λ p. a * p) (mul_comm 10 (10 ^ k) ∙ sym (pow-suc 10 k))

shift_both : (a c j k : ℕ) → a * 10 ^ j ≡ c * 10 ^ k → a * 10 ^ suc j ≡ c * 10 ^ suc k
shift_both a c j k h =
    sym (shift a j)
    ∙ mul_right_comm a 10 (10 ^ j)
    ∙ ap (λ p. p * 10) h
    ∙ sym (mul_right_comm c 10 (10 ^ k))
    ∙ shift c k

-- Dropped zeros and filled ones do not change the value.
pub scaled_lem :
    (k v : ℕ) (bs : List ℕ)
    → has_excess k bs ≡ false
    → decimal v (scaled k bs) * 10 ^ length bs ≡ decimal v bs * 10 ^ k
unfolding decimal scaled has_excess
scaled_lem zero v [] h = refl
scaled_lem (suc k) v [] h =
    scaled_lem k (v * 10 + 0) [] refl ∙ ap (λ p. p * 10 ^ k) (omega arith) ∙ shift v k
scaled_lem zero v (b ∷ bs) h =
    let nought : b ≡ 48 = ground arith in
    let same : v * 10 ≡ v * 10 + (b - 48) = omega arith in
    sym (shift v (length bs))
    ∙ ap (λ p. p * 10 ^ length bs) same
    ∙ scaled_lem zero (v * 10 + (b - 48)) bs (ground arith)
scaled_lem (suc k) v (b ∷ bs) h =
    shift_both _ _ (length bs) k (scaled_lem k (v * 10 + (b - 48)) bs h)

signed_units-ok :
    (negative : Bool) (m : ℕ) {s : SignedUnits}
    → signed_units negative m ≡ ok s
    → (s.magnitude ≡ m) × (s.negative ≡ (negative && not (m == 0)))
unfolding signed_units
signed_units-ok negative m h =
    let (_, h₁) = reject_if-ok _ overflow _ h in
    (sym (ap (λ s. s.magnitude) (ok-injective h₁)), sym (ap (λ s. s.negative) (ok-injective h₁)))

try_u256-ok :
    (s : SignedUnits) {n : ℕ}
    → try_u256 s ≡ ok n
    → (n ≡ s.magnitude) × (n < 2 ^ 256) × (s.negative ≡ false)
unfolding try_u256
try_u256-ok s {n} h =
    let (plus, h₁) = reject_if-ok s.negative negative_amount _ h in
    let (small, h₂) = reject_if-ok (not (ltb s.magnitude (2 ^ 256))) overflow _ h₁ in
    (
      sym (ok-injective h₂),
      subst (λ k. k < 2 ^ 256) (ok-injective h₂) (below s.magnitude small),
      plus,
    )
  where
    below : (m : ℕ) → not (ltb m (2 ^ 256)) ≡ false → m < 2 ^ 256
    below m e = ground arith

zero_behind_minus :
    (negative : Bool) (m n : ℕ)
    → n ≡ m
    → (negative && not (m == 0)) ≡ false
    → negative ≡ true
    → n ≡ 0
zero_behind_minus negative m n same plus minus = ground (arith, same)

-- What parses is written so.
pub parse_units-IsParsed :
    (value : List ℕ) (unit : DecimalUnit) {n : ℕ}
    → parse_units value unit ≡ ok n
    → IsParsed value unit n
unfolding parse_units parse_signed_units
parse_units-IsParsed value unit {n} h =
    let whole = (split_point (without_sign value)).0 in
    let fraction = (split_point (without_sign value)).1 in
    let (s, parsing, h₁) = >>=-eq-ok (parse_signed_units value unit) try_u256 h in
    let (size, p₁) = reject_if-ok (ltb 512 (length value)) input_too_long _ parsing in
    let (something, p₂) =
      reject_if-ok (is_nothing whole && is_nothing fraction) invalid_syntax _ p₁ in
    let (digits, p₃) = reject_if-ok (not (all_digits (whole ++ fraction))) invalid_syntax _ p₂ in
    let (kept, p₄) = reject_if-ok (has_excess unit.decimals fraction) precision_loss _ p₃ in
    let (m, adding, p₅) = >>=-eq-ok (accumulate 0 (whole ++ scaled unit.decimals fraction)) _ p₄ in
    let (same, bound, plus) = try_u256-ok s h₁ in
    let (magnitude, sign) = signed_units-ok (starts_with_minus value) m {s = s} p₅ in
    let amount : n ≡ decimal (decimal 0 whole) (scaled unit.decimals fraction) =
      same
      ∙ magnitude
      ∙ accumulate_lem 0 _ adding
      ∙ decimal-append 0 whole (scaled unit.decimals fraction) in
    record {
      negative = starts_with_minus value;
      body = without_sign value;
      whole = whole;
      fraction = fraction;
      sign = sign_lem value;
      parts = split_point-IsBody (without_sign value);
      digits = all_digits-IsDigit (whole ++ fraction) (not-false digits);
      nonempty = nonempty_lem whole fraction something;
      short = not_ltb→le _ _ size;
      exact =
          ap (λ k. k * 10 ^ length fraction) amount
          ∙ scaled_lem unit.decimals (decimal 0 whole) fraction kept
          ∙ ap (λ k. k * 10 ^ unit.decimals) (sym (decimal-append 0 whole fraction));
      nonnegative =
          zero_behind_minus (starts_with_minus value) m n (same ∙ magnitude) (sym sign ∙ plus);
      bound = bound;
    }
  where
    not-false : {b : Bool} → not b ≡ false → b ≡ true
    not-false e = ground arith
