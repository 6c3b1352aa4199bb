-- ===== src/Primitives/Twos/Encoded.antt =====
-- A signed value encodes exactly in the signed range of a width.
use quai_rust_sdk.Prelude.{
  ℕ, ◌-◌, ◌^◌, ◌≤◌, ◌<◌, ◌==◌, ◌≡◌, refl, sym, ap, ◌∙◌, ◌↔◌, ◌⊎◌, inl, inr, arith, ltb, Bool, true,
  false, not, ◌&&◌, ◌||◌, ok, ok-injective, reject_if_iff, if◌then◌else◌,
}
use quai_rust_sdk.Primitives.Amount.{SignedUnits}
use quai_rust_sdk.Primitives.Encoding.{bounds}
use quai_rust_sdk.Primitives.Twos.{mask, negate, is_bad_width, to_twos}
use quai_rust_sdk.Primitives.Twos.Powers.{half_lem, pow_pos, mask-negate, power_le}

abbrev pub IsWidth : ℕ → Type 0
IsWidth bits = (1 ≤ bits) × (bits ≤ 256)

-- The value `v` of `bits` bits stands for the signed value.
abbrev pub Represents : SignedUnits → ℕ → ℕ → Type 0
Represents s bits v =
    ((s.negative ≡ false) × (s.magnitude < 2 ^ (bits - 1)) × (v ≡ s.magnitude))
    ⊎ ((s.negative ≡ true)
        × (0 < s.magnitude)
        × (s.magnitude ≤ 2 ^ (bits - 1))
        × (v ≡ 2 ^ bits - s.magnitude))

-- Zero is not negative: what the constructor of SignedUnits keeps.
abbrev pub IsNormal : SignedUnits → Type 0
IsNormal s = s.negative ≡ true → 0 < s.magnitude

pub IsWidth-iff : (bits : ℕ) → (is_bad_width bits ≡ false) ↔ IsWidth bits
IsWidth-iff bits = (λ h. (ground arith, ground arith), λ h. ground arith)

-- The guards of `to_twos` on the magnitude, under a width.
range_iff :
    (negative : Bool) (m bits : ℕ)
    → IsWidth bits
    → ((not (ltb m (2 ^ 256)) ≡ false)
        × ((ltb (2 ^ (bits - 1)) m || (not negative && m == 2 ^ (bits - 1))) ≡ false))
      ↔ ((m ≤ 2 ^ (bits - 1)) × (negative ≡ false → m < 2 ^ (bits - 1)))
range_iff true m bits (low, high) = (
  λ h. (ground arith, λ e. cc),
  λ h. (ground (arith, power_le bits high, half_lem bits low, pow_pos (bits - 1)), ground arith),
)
range_iff false m bits (low, high) = (
  λ h. (ground arith, λ _. ground arith),
  λ h.
      let less : m < 2 ^ (bits - 1) = h.1 refl in
      (ground (arith, power_le bits high, half_lem bits low, pow_pos (bits - 1)), ground arith),
)

to_twos_tail :
    (s : SignedUnits) (bits v : ℕ)
    → IsWidth bits
    → IsNormal s
    → s.magnitude ≤ 2 ^ (bits - 1)
    → ((if s.negative then mask (negate s.magnitude) bits else ok s.magnitude) ≡ ok v)
      ↔ (if s.negative then (v ≡ 2 ^ bits - s.magnitude) else (v ≡ s.magnitude))
to_twos_tail s bits v (low, high) normal small = by_sign s.negative refl
  where
    m : ℕ
    m = s.magnitude

    by_sign :
        (b : Bool)
        → s.negative ≡ b
        → ((if b then mask (negate m) bits else ok m) ≡ ok v)
          ↔ (if b then (v ≡ 2 ^ bits - m) else (v ≡ m))
    by_sign true e =
        let known =
          mask-negate m bits low high (normal e)
            (omega (arith, small, half_lem bits low, pow_pos (bits - 1))) in
        (λ h. ok-injective (sym h ∙ known), λ h. known ∙ ap ok (sym h))
    by_sign false e = (λ h. sym (ok-injective h), λ h. ap ok (sym h))

pub Represents-iff :
    (s : SignedUnits) (bits v : ℕ)
    → IsNormal s
    → (((s.magnitude ≤ 2 ^ (bits - 1)) × (s.negative ≡ false → s.magnitude < 2 ^ (bits - 1)))
        × (if s.negative then (v ≡ 2 ^ bits - s.magnitude) else (v ≡ s.magnitude)))
      ↔ Represents s bits v
Represents-iff s bits v normal = by_sign s.negative normal
  where
    m : ℕ
    m = s.magnitude

    by_sign :
        (b : Bool)
        → (b ≡ true → 0 < m)
        → (((m ≤ 2 ^ (bits - 1)) × (b ≡ false → m < 2 ^ (bits - 1)))
            × (if b then (v ≡ 2 ^ bits - m) else (v ≡ m)))
          ↔ (((b ≡ false) × (m < 2 ^ (bits - 1)) × (v ≡ m))
              ⊎ ((b ≡ true) × (0 < m) × (m ≤ 2 ^ (bits - 1)) × (v ≡ 2 ^ bits - m)))
    by_sign true positive = (
      λ h. inr (refl, positive refl, h.0.0, h.1),
      λ h. elim h [ inl h ↦ cc (h.0) | inr h ↦ ((h.2, λ e. cc), h.3) ],
    )
    by_sign false positive = (
      λ h. inl (refl, h.0.1 refl, h.1),
      λ h. elim h [ inl h ↦ ((omega (arith, h.1), λ _. h.1), h.2) | inr h ↦ cc (h.0) ],
    )

-- A value encodes at a width exactly when it is in its signed range, and then as the word that is
-- congruent to it.
pub to_twos_iff :
    (s : SignedUnits) (bits v : ℕ)
    → IsNormal s
    → (to_twos s bits ≡ ok v) ↔ (IsWidth bits × Represents s bits v)
unfolding to_twos
to_twos_iff s bits v normal = (forth, back)
  where
    a : Bool
    a = not (ltb s.magnitude (2 ^ 256))

    b : Bool
    b = ltb (2 ^ (bits - 1)) s.magnitude || (not s.negative && s.magnitude == 2 ^ (bits - 1))

    forth : to_twos s bits ≡ ok v → IsWidth bits × Represents s bits v
    forth h =
        let (w, h1) = (reject_if_iff (is_bad_width bits) bounds _ v).0 h in
        let (fits, h2) = (reject_if_iff a bounds _ v).0 h1 in
        let (inside, h3) = (reject_if_iff b bounds _ v).0 h2 in
        let width = (IsWidth-iff bits).0 w in
        let range = (range_iff s.negative s.magnitude bits width).0 (fits, inside) in
        (
          width,
          (Represents-iff s bits v normal).0
              (range, (to_twos_tail s bits v width normal range.0).0 h3),
        )

    back : IsWidth bits × Represents s bits v → to_twos s bits ≡ ok v
    back (width, r) =
        let (range, value) = (Represents-iff s bits v normal).1 r in
        let (fits, inside) = (range_iff s.negative s.magnitude bits width).1 range in
        (reject_if_iff (is_bad_width bits) bounds _ v).1 (
          (IsWidth-iff bits).1 width,
          (reject_if_iff a bounds _ v).1 (
            fits,
            (reject_if_iff b bounds _ v).1
                (inside, (to_twos_tail s bits v width normal range.0).1 value),
          ),
        )
