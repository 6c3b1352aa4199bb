-- ===== src/Primitives/Amount/Digits.antt =====
-- What decimal digits count, and when an amount loses none of them.
use quai_rust_sdk.Prelude.{
  ℕ, zero, suc, ◌+◌, ◌-◌, ◌*◌, ◌^◌, ◌≤◌, ◌<◌, ◌≡◌, refl, sym, ◌∙◌, ap, false, ltb, ltb→lt,
  not_ltb→le, Bool-cases, List, [], ◌∷◌, length, All, arith, inl, inr,
}
use native.Mathlib.Nat.{pow-suc, mul_assoc, mul-le-mul, suc-mul, le_refl}
use quai_rust_sdk.Primitives.Amount.{has_excess, scaled}
use quai_rust_sdk.Primitives.Amount.Exact.{decimal, IsDigit, scaled_lem, shift}

power_positive : (k : ℕ) → 1 ≤ 10 ^ k
power_positive zero = omega arith
power_positive (suc k) = omega (arith, power_positive k, pow-suc 10 k)

spread : (v d p r q : ℕ) → v * 10 * p ≡ q → (v * 10 + d) * p + r ≡ q + (d * p + r)
spread v d p r q h = grind arith

nought : (d p r : ℕ) → 1 ≤ p → d * p + r ≡ 0 → (d ≡ 0) × (r ≡ 0)
nought zero p r h e = (refl, omega arith)
nought (suc d) p r h e = absurd (omega (arith, suc-mul d p))

digit_bound : (d p : ℕ) → d ≤ 9 → d * p ≤ 9 * p
digit_bound d p h = mul-le-mul h (le_refl p)

-- The digits behind `v` count less than one of it.
decimal_split :
    (v : ℕ) (bs : List ℕ)
    → All IsDigit bs
    → (r : ℕ) × (decimal v bs ≡ v * 10 ^ length bs + r)
      × (r < 10 ^ length bs)
      × (r ≡ 0 → has_excess 0 bs ≡ false)
unfolding decimal has_excess
decimal_split v [] h = (0, omega arith, omega arith, λ _. refl)
decimal_split v (b ∷ bs) ((low, high), h) =
    let (r, e, small, zeros) = decimal_split (v * 10 + (b - 48)) bs h in
    (
      (b - 48) * 10 ^ length bs + r,
      e ∙ spread v (b - 48) (10 ^ length bs) r _ (shift v (length bs)),
      omega (
        arith,
        small,
        digit_bound (b - 48) (10 ^ length bs) (omega arith),
        pow-suc 10 (length bs),
      ),
      λ none_.
          let (d, less) = nought (b - 48) (10 ^ length bs) r (power_positive (length bs)) none_ in
          let zero_ : b ≡ 48 = omega (arith, d) in let others = zeros less in ground arith,
    )

same_quotient : (n v p r : ℕ) → n * p ≡ v * p + r → r < p → (n ≡ v) × (r ≡ 0)
same_quotient n v p r e small = elim (Bool-cases (ltb n v)) [
  | inl less ↦
      let step : suc n * p ≤ v * p = mul-le-mul (ltb→lt n v less) (le_refl p) in
      absurd (omega (arith, step, suc-mul n p))
  | inr h ↦ elim (Bool-cases (ltb v n)) [
    | inl more ↦
        let step : suc v * p ≤ n * p = mul-le-mul (ltb→lt v n more) (le_refl p) in
        absurd (omega (arith, step, suc-mul v p))
    | inr k ↦
        let same : n ≡ v = omega (arith, not_ltb→le n v h, not_ltb→le v n k) in
        (same, omega (arith, ap (λ x. x * p) same))
  ]
]

unshift_both : (a c j k : ℕ) → a * 10 ^ suc j ≡ c * 10 ^ suc k → a * 10 ^ j ≡ c * 10 ^ k
unshift_both a c j k h = omega (arith, h, apart a j, apart c k)
  where
    apart : (a j : ℕ) → a * 10 ^ suc j ≡ a * 10 ^ j * 10
    apart a j = ap (λ p. a * p) (pow-suc 10 j) ∙ sym (mul_assoc a (10 ^ j) 10)

-- An exact amount loses no digit, and its digits are those that are filled up.
pub exact_lem :
    (k v : ℕ) (bs : List ℕ) (n : ℕ)
    → All IsDigit bs
    → n * 10 ^ length bs ≡ decimal v bs * 10 ^ k
    → (has_excess k bs ≡ false) × (n ≡ decimal v (scaled k bs))
unfolding decimal scaled has_excess
exact_lem k v [] n h e = (refl, omega (arith, e, scaled_lem k v [] refl))
exact_lem zero v (b ∷ bs) n h e =
    let (r, split, small, zeros) = decimal_split v (b ∷ bs) h in
    let (same, none_) =
      same_quotient n v (10 ^ length (b ∷ bs)) r (omega (arith, e, split)) small in
    (zeros none_, same)
exact_lem (suc k) v (b ∷ bs) n h e =
    exact_lem k (v * 10 + (b - 48)) bs n h.1 (unshift_both n _ (length bs) k e)

pub decimal_grows : (v : ℕ) (bs : List ℕ) → v ≤ decimal v bs
unfolding decimal
decimal_grows v [] = omega arith
decimal_grows v (b ∷ bs) = omega (arith, decimal_grows (v * 10 + (b - 48)) bs)
