-- ===== src/Consensus/Discount/Monotone.antt =====
-- The discount of a batch stays in its range and grows with the batch.
use quai_rust_sdk.Prelude.{
  ℕ, suc, ◌+◌, ◌*◌, ◌/◌, ◌^◌, ◌≤◌, ◌<◌, ◌==◌, ◌≡◌, refl, sym, ap, ◌∙◌, arith, leb, ltb, ltb→lt,
  not_ltb→le, leb→le, not_leb→lt, Bool, true, false, Bool-cases, if◌then◌else◌, Option, none, some,
  min, some_injective, ◌⊎◌, inl, inr, ==_iff,
}
use native.Mathlib.Nat.{div-add-mod', mul-le-mul, mod-lt, suc-mul}
use quai_rust_sdk.Prelude.Words.{checked_add, checked_add-some, checked_mul, checked_mul-some}
use quai_rust_sdk.Consensus.Discount.{div_ceil, cube, capped, ◌>>=?◌, conversion_batch_discount_bps}

div_le : (a b c : ℕ) → 0 < c → a ≤ b → a / c ≤ b / c
div_le a b c pos h = elim (Bool-cases (leb (a / c) (b / c))) [
  | inl e ↦ leb→le (a / c) (b / c) e
  | inr e ↦
      let less : suc (b / c) ≤ a / c = not_leb→lt (a / c) (b / c) e in
      let far : suc (b / c) * c ≤ a / c * c = mul-le-mul less (le_refl c) in
      absurd
        (omega (arith, far, h, suc-mul (b / c) c, div-add-mod' a c, div-add-mod' b c, mod-lt b pos))
]
  where
    le_refl : (n : ℕ) → n ≤ n
    le_refl n = omega arith

div_ceil_le : (a b c : ℕ) → 0 < c → a ≤ b → div_ceil a c ≤ div_ceil b c
unfolding div_ceil
div_ceil_le a b c pos h = elim (Bool-cases (a / c == b / c)) [
  | inl e ↦
      let same : a / c ≡ b / c = (==_iff (a / c) (b / c)).0 e in
      let product : a / c * c ≡ b / c * c = ap (λ (q : ℕ). q * c) same in
      ground (arith, same, product, h, div-add-mod' a c, div-add-mod' b c)
  | inr e ↦
      let less = div_le a b c pos h in
      let apart : a / c < b / c = ground (arith, less) in ground (arith, apart)
]

-- A multiple of the divisor is not rounded below.
div_ceil-above : (k a c : ℕ) → 0 < c → k * c ≤ a → k ≤ div_ceil a c
unfolding div_ceil
div_ceil-above k a c pos h = elim (Bool-cases (leb k (a / c))) [
  | inl e ↦ ground (arith, leb→le k (a / c) e)
  | inr e ↦
      let less : suc (a / c) ≤ k = not_leb→lt k (a / c) e in
      let far : suc (a / c) * c ≤ k * c = mul-le-mul less (omega arith) in
      absurd (omega (arith, far, h, suc-mul (a / c) c, div-add-mod' a c, mod-lt a pos))
]

then-some :
    (o : Option ℕ) (next : ℕ → Option ℕ) (c : ℕ)
    → (o >>=? next) ≡ some c
    → (a : ℕ) × (o ≡ some a) × (next a ≡ some c)
then-some none next c h = cc
then-some (some a) next c h = (a, refl, h)

cube_lem : (v c : ℕ) → cube v ≡ some c → c ≡ v * v * v
unfolding cube
cube_lem v c h =
    let (square, e, e1) = then-some (checked_mul 256 v v) _ c h in
    checked_mul-some 256 square v e1 ∙ ap (λ (t : ℕ). t * v) (checked_mul-some 256 v v e)

-- The three ranges of a batch, and the discount in each.
data Range (t f d : ℕ) : Type 0 where
  within : t ≤ f → d ≡ 20 → Range t f d
  beyond : 10 * f < t → d ≡ 9000 → Range t f d
  between :
      f < t → t ≤ 10 * f → d ≡ min (div_ceil (t * t * t * 10) (f * f * f) + 10) 9000 → Range t f d

branch :
    (b : Bool) (x y : Option ℕ) (d : ℕ)
    → (if b then x else y) ≡ some d
    → ((b ≡ true) × (x ≡ some d)) ⊎ ((b ≡ false) × (y ≡ some d))
branch true x y d h = inl (refl, h)
branch false x y d h = inr (refl, h)

capped_lem : (v d : ℕ) → capped v ≡ some d → d ≡ min v 9000
capped_lem v d h = elim (branch (ltb (min v 9000) (2 ^ 16)) _ _ d h) [
  | inl (_, e) ↦ sym (some_injective e)
  | inr (_, e) ↦ cc
]

discount-Range : (t f d : ℕ) → conversion_batch_discount_bps t f ≡ some d → (0 < f) × Range t f d
unfolding conversion_batch_discount_bps
discount-Range t f d h = elim (branch (f == 0) _ _ d h) [
  | inl (_, e) ↦ cc
  | inr (nonzero, h1) ↦
      let pos : 0 < f = ground arith in
      elim (branch (leb t f) _ _ d h1) [
        | inl (e, e1) ↦ (pos, within (leb→le t f e) (sym (some_injective e1)))
        | inr (e, h2) ↦
            let (tenfold, e1, h3) = then-some (checked_mul 256 f 10) _ d h2 in
            let ten = checked_mul-some 256 f 10 e1 in
            elim (branch (ltb tenfold t) _ _ d h3) [
              | inl (far, e2) ↦
                  (pos, beyond (omega (arith, ltb→lt tenfold t far, ten)) (sym (some_injective e2)))
              | inr (near, h4) ↦
                  let (total, e2, h5) = then-some (cube t) _ d h4 in
                  let (numerator, e3, h6) = then-some (checked_mul 256 total 10) _ d h5 in
                  let (denominator, e4, h7) = then-some (cube f) _ d h6 in
                  let (value, e5, h8) =
                    then-some (checked_add 256 (div_ceil numerator denominator) 10) capped d h7 in
                  (
                    pos,
                    between (not_leb→lt t f e) (omega (arith, not_ltb→le tenfold t near, ten)) (
                        capped_lem value d h8
                        ∙ ap (λ (v : ℕ). min v 9000)
                            ((checked_add-some 256 (div_ceil numerator denominator) 10 e5).0
                              ∙ ap (λ (v : ℕ). v + 10)
                                  (ap (λ (n : ℕ). div_ceil n denominator)
                                      (checked_mul-some 256 total 10 e3
                                        ∙ ap (λ (c : ℕ). c * 10) (cube_lem t total e2))
                                    ∙ ap (div_ceil (t * t * t * 10)) (cube_lem f denominator e4)))),
                  )
            ]
      ]
]

cube_le : (a b : ℕ) → a ≤ b → a * a * a ≤ b * b * b
cube_le a b h = mul-le-mul (mul-le-mul h h) h

-- The value between the ends is above the lowest discount.
between_low : (t f : ℕ) → 0 < f → f < t → 20 ≤ min (div_ceil (t * t * t * 10) (f * f * f) + 10) 9000
between_low t f pos h =
    let unit : 1 ≤ f * f * f = cube_le 1 f pos in
    let grown : f * f * f ≤ t * t * t = cube_le f t (omega arith) in
    let ten = div_ceil-above 10 (t * t * t * 10) (f * f * f) unit (omega (arith, grown)) in
    omega (arith, ten)

between_le :
    (t u f : ℕ)
    → 0 < f
    → t ≤ u
    → min (div_ceil (t * t * t * 10) (f * f * f) + 10) 9000
      ≤ min (div_ceil (u * u * u * 10) (f * f * f) + 10) 9000
between_le t u f pos h =
    let grown : t * t * t ≤ u * u * u = cube_le t u h in
    let more =
      div_ceil_le (t * t * t * 10) (u * u * u * 10) (f * f * f) (cube_le 1 f pos)
        (omega (arith, grown)) in
    omega (arith, more)

Range-bounds : (t f d : ℕ) → 0 < f → Range t f d → (20 ≤ d) × (d ≤ 9000)
Range-bounds t f d pos (within h e) = (omega (arith, e), omega (arith, e))
Range-bounds t f d pos (beyond h e) = (omega (arith, e), omega (arith, e))
Range-bounds t f d pos (between low high e) =
    (omega (arith, e, between_low t f pos low), omega (arith, e))

-- Where a discount is answered it is from 20 to 9,000 basis points, and for the same flow amount
-- the discount of a larger batch is no smaller.
pub conversion_batch_discount_bps-grows :
    (t u flow d e : ℕ)
    → t ≤ u
    → conversion_batch_discount_bps t flow ≡ some d
    → conversion_batch_discount_bps u flow ≡ some e
    → (20 ≤ d) × (d ≤ e) × (e ≤ 9000)
conversion_batch_discount_bps-grows t u flow d e h first second =
    let (pos, r) = discount-Range t flow d first in
    let (_, s) = discount-Range u flow e second in
    let (low, below) = Range-bounds t flow d pos r in
    let (above, high) = Range-bounds u flow e pos s in (low, grows r s (below, above) pos, high)
  where
    grows : Range t flow d → Range u flow e → (d ≤ 9000) × (20 ≤ e) → 0 < flow → d ≤ e
    grows (within _ a) s (_, above) pos = omega (arith, a, above)
    grows r (beyond _ b) (below, _) pos = omega (arith, b, below)
    grows (beyond far _) (within near _) _ pos = absurd (omega (arith, h, far, near))
    grows (beyond far _) (between _ near _) _ pos = absurd (omega (arith, h, far, near))
    grows (between far _ _) (within near _) _ pos = absurd (omega (arith, h, far, near))
    grows (between _ _ a) (between _ _ b) _ pos = omega (arith, a, b, between_le t u flow pos h)
