-- ===== src/Primitives/Twos/Exact.antt =====
-- A signed value and its two's complement determine each other.
use quai_rust_sdk.Prelude.{
  ℕ, ◌-◌, ◌/◌, ◌%◌, ◌^◌, ◌≤◌, ◌<◌, ◌==◌, ◌≡◌, refl, sym, ap, ◌∙◌, ◌↔◌, ◌⊎◌, inl, inr, arith, ltb,
  Bool, true, false, not, ◌&&◌, ◌||◌, Result, ok, ok-injective, ◌>>=◌, >>=_iff, reject_if_iff,
  Bool-cases, leb, leb→le, not_leb→lt, or-false, not-false, ==_iff, if◌then◌else◌,
}
use native.Mathlib.Nat.{mod-eq_of_lt, mod-lt, div-eq_of_lt, div-eq_of_lt-le}
use quai_rust_sdk.Primitives.Amount.{SignedUnits, signed_units}
use quai_rust_sdk.Primitives.Encoding.{EncodingError, bounds}
use quai_rust_sdk.Primitives.Twos.{mask, negate, is_bad_width, to_twos, or_bounds, bit, from_twos}
use quai_rust_sdk.Primitives.Twos.Powers.{half_lem, pow_pos, mask_lem, mask-negate, power_le}
use quai_rust_sdk.Primitives.Twos.Encoded.{IsWidth, Represents, IsNormal, IsWidth-iff, to_twos_iff}

-- The top bit of a value of `bits` bits.
bit_lem :
    (bits v : ℕ)
    → IsWidth bits
    → v < 2 ^ bits
    → ((bit v (bits - 1) ≡ true) × (2 ^ (bits - 1) ≤ v))
      ⊎ ((bit v (bits - 1) ≡ false) × (v < 2 ^ (bits - 1)))
bit_lem bits v (low, high) small = elim (Bool-cases (leb (2 ^ (bits - 1)) v)) [
  | inl e ↦
      let up = leb→le (2 ^ (bits - 1)) v e in
      let one : v / 2 ^ (bits - 1) ≡ 1 =
        div-eq_of_lt-le (2 ^ (bits - 1)) (omega (arith, up))
          (omega (arith, small, half_lem bits low)) in
      inl (ap (λ (k : ℕ). k % 2 == 1) one, up)
  | inr e ↦
      let down = not_leb→lt (2 ^ (bits - 1)) v e in
      inr (ap (λ (k : ℕ). k % 2 == 1) (div-eq_of_lt down), down)
]

and_false_right : (a b : Bool) → b ≡ false → (a && b) ≡ false
and_false_right true b h = h
and_false_right false b h = refl

-- The units of a magnitude that a U256 holds.
signed_units_lem :
    (negative : Bool) (m : ℕ)
    → m < 2 ^ 256
    → signed_units negative m ≡ ok (record { negative = negative && not (m == 0); magnitude = m })
unfolding signed_units
signed_units_lem negative m h =
    (reject_if_iff (ltb (2 ^ 511) m || (not negative && m == 2 ^ 511)) _ _ _).1 (
      (or-false (ltb (2 ^ 511) m) (not negative && m == 2 ^ 511)).1
          (ground arith, and_false_right (not negative) (m == 2 ^ 511) (ground arith)),
      refl,
    )

-- What `from_twos` reads behind its checks.
from_twos_tail : ℕ → ℕ → Bool → Result EncodingError SignedUnits
from_twos_tail bits v negative = (if negative then mask (negate v) bits else ok v) >>= λ magnitude.
    or_bounds (signed_units negative magnitude)

nonzero_test : (m : ℕ) → 0 < m → not (m == 0) ≡ true
nonzero_test m h = ground arith

negative_tail :
    (bits v : ℕ)
    → IsWidth bits
    → v < 2 ^ bits
    → 2 ^ (bits - 1) ≤ v
    → from_twos_tail bits v true ≡ ok (record { negative = true; magnitude = 2 ^ bits - v })
unfolding from_twos_tail
negative_tail bits v (low, high) small up =
    let m = 2 ^ bits - v in
    let positive : 0 < v = omega (arith, up, pow_pos (bits - 1)) in
    ap (λ (r : Result EncodingError ℕ). r >>= λ k. or_bounds (signed_units true k))
      (mask-negate v bits low high positive small)
    ∙ ap or_bounds (signed_units_lem true m (omega (arith, positive, power_le bits high)))
    ∙ ap (λ (b : Bool). ok (record { negative = b; magnitude = m }))
        (nonzero_test m (omega (arith, small)))

positive_tail :
    (bits v : ℕ)
    → v < 2 ^ 256
    → from_twos_tail bits v false ≡ ok (record { negative = false; magnitude = v })
unfolding from_twos_tail
positive_tail bits v small = ap or_bounds (signed_units_lem false v small)

units_ext :
    (b : Bool) (m : ℕ) (s : SignedUnits)
    → b ≡ s.negative
    → m ≡ s.magnitude
    → ◌≡◌ {A = SignedUnits} (record { negative = b; magnitude = m }) s
units_ext b m s e f = cc

tail_iff :
    (s : SignedUnits) (bits v : ℕ)
    → IsWidth bits
    → v < 2 ^ bits
    → (from_twos_tail bits v (bit v (bits - 1)) ≡ ok s) ↔ Represents s bits v
tail_iff s bits v (low, high) small = elim (bit_lem bits v (low, high) small) [
  | inl (e, up) ↦
      let known = ap (from_twos_tail bits v) e ∙ negative_tail bits v (low, high) small up in
      (
        λ h.
            let same = ok-injective (sym known ∙ h) in
            let sign : true ≡ s.negative = ap (λ (x : SignedUnits). x.negative) same in
            let size : 2 ^ bits - v ≡ s.magnitude = ap (λ (x : SignedUnits). x.magnitude) same in
            inr (
              sym sign,
              omega (arith, small, size),
              omega (arith, up, size, half_lem bits low),
              omega (arith, small, size),
            ),
        λ h. elim h [
          | inl r ↦ absurd (omega (arith, r.1, r.2, up))
          | inr r ↦
              known
              ∙ ap ok (
                  units_ext true (2 ^ bits - v) s (sym r.0)
                    (omega (arith, r.2, r.3, half_lem bits low)))
        ],
      )
  | inr (e, down) ↦
      let known =
        ap (from_twos_tail bits v) e
        ∙ positive_tail bits v (omega (arith, small, power_le bits high)) in
      (
        λ h.
            let same = ok-injective (sym known ∙ h) in
            let sign : false ≡ s.negative = ap (λ (x : SignedUnits). x.negative) same in
            let size : v ≡ s.magnitude = ap (λ (x : SignedUnits). x.magnitude) same in
            inl (sym sign, omega (arith, down, size), size),
        λ h. elim h [
          | inl r ↦ known ∙ ap ok (units_ext false v s (sym r.0) r.2)
          | inr r ↦ absurd (omega (arith, r.2, r.3, down, half_lem bits low, pow_pos (bits - 1)))
        ],
      )
]

Represents-small :
    (s : SignedUnits) (bits v : ℕ) → IsWidth bits → Represents s bits v → v < 2 ^ bits
Represents-small s bits v (low, high) r = elim r [
  | inl r ↦ omega (arith, r.1, r.2, half_lem bits low)
  | inr r ↦ omega (arith, r.1, r.2, r.3, half_lem bits low)
]

from_twos_iff :
    (s : SignedUnits) (bits v : ℕ)
    → v < 2 ^ 256
    → (from_twos v bits ≡ ok s) ↔ (IsWidth bits × Represents s bits v)
unfolding from_twos from_twos_tail
from_twos_iff s bits v word = (forth, back)
  where
    forth : from_twos v bits ≡ ok s → IsWidth bits × Represents s bits v
    forth h =
        let (w, h1) = (reject_if_iff (is_bad_width bits) bounds _ s).0 h in
        let (low, e, h2) = (>>=_iff (mask v bits) _ s).0 h1 in
        let (g, h3) = (reject_if_iff (not (low == v)) bounds _ s).0 h2 in
        let width = (IsWidth-iff bits).0 w in
        let same : low ≡ v = (==_iff low v).0 ((not-false (low == v)).0 g) in
        let read : low ≡ v % 2 ^ bits =
          ok-injective (sym e ∙ mask_lem v bits width.0 width.1 word) in
        let small : v < 2 ^ bits = omega (arith, same, read, mod-lt v (pow_pos bits)) in
        (width, (tail_iff s bits v width small).0 h3)

    back : IsWidth bits × Represents s bits v → from_twos v bits ≡ ok s
    back (width, r) =
        let small = Represents-small s bits v width r in
        (reject_if_iff (is_bad_width bits) bounds _ s).1 (
          (IsWidth-iff bits).1 width,
          (>>=_iff (mask v bits) _ s).1 (
            v,
            mask_lem v bits width.0 width.1 word ∙ ap ok (mod-eq_of_lt small),
            (reject_if_iff (not (v == v)) bounds _ s).1
                ((not-false (v == v)).1 ((==_iff v v).1 refl), (tail_iff s bits v width small).1 r),
          ),
        )

-- A width and a word determine a signed value exactly as the value determines the word: encoding
-- answers the word when and only when decoding the word answers the value.
pub twos_iff :
    (s : SignedUnits) (bits v : ℕ)
    → IsNormal s
    → v < 2 ^ 256
    → (to_twos s bits ≡ ok v) ↔ (from_twos v bits ≡ ok s)
twos_iff s bits v normal word =
    let (enc, enc_back) = to_twos_iff s bits v normal in
    let (dec, dec_back) = from_twos_iff s bits v word in
    (λ h. dec_back (enc h), λ h. enc_back (dec h))
