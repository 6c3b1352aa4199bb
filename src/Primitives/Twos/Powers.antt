-- ===== src/Primitives/Twos/Powers.antt =====
-- Remainders by powers of two, and the negation of a word.
use quai_rust_sdk.Prelude.{
  ℕ, zero, suc, ◌+◌, ◌-◌, ◌*◌, ◌%◌, ◌^◌, ◌≤◌, ◌<◌, ◌==◌, ◌≡◌, refl, sym, ap, ◌∙◌, arith, ltb, Bool,
  true, false, Result, ok, err, ==_iff, if◌then◌else◌,
}
use native.Mathlib.Nat.{
  two-pow-succ, add-mul, suc-mul, pow-le-pow_right, one-le-pow, mod-eq_of_lt,
  add-mul-mod_self_right,
}
use quai_rust_sdk.Primitives.Encoding.{EncodingError, bounds}
use quai_rust_sdk.Primitives.Twos.{mask, negate}

pub half_lem : (b : ℕ) → 1 ≤ b → 2 ^ b ≡ 2 ^ (b - 1) + 2 ^ (b - 1)
half_lem zero h = absurd (omega arith)
half_lem (suc c) h = two-pow-succ c ∙ ap (λ (k : ℕ). 2 ^ k + 2 ^ k) pred
  where
    pred : c ≡ suc c - 1
    pred = omega arith

pub pow_pos : (b : ℕ) → 1 ≤ 2 ^ b
pow_pos b = one-le-pow b 2 (omega arith)

-- `2 ^ (a + b)`.
pow-sum : (a b : ℕ) → 2 ^ (a + b) ≡ 2 ^ a * 2 ^ b
pow-sum zero b = ap (λ (k : ℕ). 2 ^ k) left ∙ one_lem (2 ^ b)
  where
    left : 0 + b ≡ b
    left = omega arith

    one_lem : (x : ℕ) → x ≡ 2 ^ 0 * x
    one_lem x = omega arith
pow-sum (suc a) b =
    ap (λ (k : ℕ). 2 ^ k) shift
    ∙ two-pow-succ (a + b)
    ∙ ap (λ (x : ℕ). x + x) (pow-sum a b)
    ∙ double (2 ^ a) (2 ^ b)
    ∙ ap (λ (x : ℕ). x * 2 ^ b) (sym (two-pow-succ a))
  where
    shift : suc a + b ≡ suc (a + b)
    shift = omega arith

    double : (x y : ℕ) → x * y + x * y ≡ (x + x) * y
    double x y = sym (add-mul x x y)

-- The powers divide that of the whole word.
whole_lem : (b : ℕ) → b ≤ 256 → 2 ^ 256 ≡ 2 ^ (256 - b) * 2 ^ b
whole_lem b h = ap (λ (k : ℕ). 2 ^ k) parts ∙ pow-sum (256 - b) b
  where
    parts : 256 ≡ 256 - b + b
    parts = omega arith

multiple_mod : (q p m : ℕ) → m < p → (m + q * p) % p ≡ m
multiple_mod q p m h = add-mul-mod_self_right m q p ∙ mod-eq_of_lt h

complement_lem : (w q p m : ℕ) → 1 ≤ q → w ≡ q * p → 0 < m → m < p → (w - m) % p ≡ p - m
complement_lem w zero p m h e low high = absurd (omega arith)
complement_lem w (suc q) p m h e low high =
    ap (λ (k : ℕ). k % p) apart ∙ multiple_mod q p (p - m) (omega arith)
  where
    apart : w - m ≡ p - m + q * p
    apart = omega (arith, e, suc-mul q p)

three_ways :
    (a b c : Bool) {v r : ℕ}
    → a ≡ false
    → (b ≡ true → v ≡ r)
    → (b ≡ false → c ≡ true)
    → ◌≡◌ {A = Result EncodingError ℕ}
        (if a then ok 0 else if b then ok v else if c then ok r else err bounds)
        (ok r)
three_ways true b c h whole part = cc
three_ways false true c h whole part = ap ok (whole refl)
three_ways false false true h whole part = refl
three_ways false false false h whole part = cc (part refl)

-- The masks and the negation of a word.
pub mask_lem :
    (value bits : ℕ)
    → 1 ≤ bits
    → bits ≤ 256
    → value < 2 ^ 256
    → mask value bits ≡ ok (value % 2 ^ bits)
unfolding mask
mask_lem value bits low high small =
    three_ways (bits == 0) (bits == 256) (ltb bits 256) (ground arith)
      (λ e. sym (ap (λ (k : ℕ). value % 2 ^ k) ((==_iff bits 256).0 e) ∙ mod-eq_of_lt small))
      (λ e. ground arith)

pub negate_lem : (m : ℕ) → 0 < m → m < 2 ^ 256 → negate m ≡ 2 ^ 256 - m
negate_lem m low high = ap (λ (k : ℕ). k % 2 ^ 256) (omega arith) ∙ mod-eq_of_lt (omega arith)

pub power_le : (bits : ℕ) → bits ≤ 256 → 2 ^ bits ≤ 2 ^ 256
power_le bits h = pow-le-pow_right {n = 2} (omega arith) h

pub mask-negate :
    (m bits : ℕ)
    → 1 ≤ bits
    → bits ≤ 256
    → 0 < m
    → m < 2 ^ bits
    → mask (negate m) bits ≡ ok (2 ^ bits - m)
mask-negate m bits one width low high =
    let inside : m < 2 ^ 256 = omega (arith, power_le bits width) in
    let small : negate m < 2 ^ 256 = omega (arith, negate_lem m low inside) in
    mask_lem (negate m) bits one width small
    ∙ ap ok (
        ap (λ (k : ℕ). k % 2 ^ bits) (negate_lem m low inside)
        ∙ complement_lem (2 ^ 256) (2 ^ (256 - bits)) (2 ^ bits) m (pow_pos (256 - bits))
            (whole_lem bits width) low high)
