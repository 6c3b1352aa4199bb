-- ===== src/Primitives/Fixed/RoundTrip.antt =====
-- The byte form of a fixed-point value is read back (crates/quai-primitives/src/fixed.rs).
use quai_rust_sdk.Prelude.{
  ℕ, zero, suc, ◌+◌, ◌-◌, ◌*◌, ◌/◌, ◌%◌, ◌^◌, ◌≤◌, ◌<◌, ◌==◌, ltb, ==_iff, all_below,
  all_below_sound, Bool, true, false, not, ◌&&◌, ◌||◌, if◌then◌else◌, List, [], ◌∷◌, ◌++◌, length,
  Option, some, Result, ok, ◌>>=◌, reject_if_iff, ◌≡◌, refl, sym, ap, subst, ◌∙◌, inl, inr, arith,
  Bool-cases, if_true, if_false, le→not_ltb,
}
use mathlib.Core.List.{append_assoc, append-nil}
use quai_rust_sdk.Primitives.Amount.{SignedUnits, signed_units, try_u256}
use quai_rust_sdk.Primitives.Bytes.{
  drop, drop-append, to_be_bytes, from_be, from_be_bytes, length-to_be_bytes,
  from_be_bytes-to_be_bytes,
}
use quai_rust_sdk.Primitives.Encoding.{strip_zeros_left}
use quai_rust_sdk.Primitives.Twos.{to_twos, from_twos}
use quai_rust_sdk.Primitives.Twos.Encoded.{Represents, to_twos_iff}
use quai_rust_sdk.Primitives.Twos.Exact.{twos_iff}
use quai_rust_sdk.Primitives.Twos.Powers.{power_le, half_lem}
use quai_rust_sdk.Primitives.Fixed.{FixedFormat, FixedError, overflow, FixedPoint, amount_or, parts}
use quai_rust_sdk.Primitives.Fixed.Encoded.{or_overflow, from_bytes, to_bytes, expect, written}
use quai_rust_sdk.Primitives.Fixed.Exact.{IsFixed, InRange, normal, parts_iff, point}

-- Leading zeros add nothing, and stripping them makes no slice longer.
from_be_bytes-strip_zeros_left :
    (bs : List ℕ) → from_be_bytes (strip_zeros_left bs) ≡ from_be_bytes bs
unfolding strip_zeros_left from_be
from_be_bytes-strip_zeros_left [] = refl
from_be_bytes-strip_zeros_left (b ∷ bs) = elim (Bool-cases (b == 0)) [
  | inl empty ↦
      let nothing : b ≡ 0 = ground arith in
      ap from_be_bytes (if_true (b == 0) _ (b ∷ bs) empty)
      ∙ from_be_bytes-strip_zeros_left bs
      ∙ ap (λ k. from_be k bs) (omega arith)
  | inr filled ↦ ap from_be_bytes (if_false (b == 0) _ (b ∷ bs) filled)
]

length-strip_zeros_left : (bs : List ℕ) → length (strip_zeros_left bs) ≤ length bs
unfolding strip_zeros_left
length-strip_zeros_left [] = omega arith
length-strip_zeros_left (b ∷ bs) = elim (Bool-cases (b == 0)) [
  | inl empty ↦
      subst (λ k. length k ≤ suc (length bs)) (sym (if_true (b == 0) _ (b ∷ bs) empty))
        (omega (arith, length-strip_zeros_left bs))
  | inr filled ↦
      subst (λ k. length k ≤ suc (length bs)) (sym (if_false (b == 0) _ (b ∷ bs) filled))
        (omega arith)
]

-- The low bytes of an integer are those of the shorter form.
split_bytes :
    (n a t v : ℕ)
    → t ≡ a + n
    → (front : List ℕ) × (length front ≡ a) × (to_be_bytes t v ≡ front ++ to_be_bytes n v)
unfolding to_be_bytes
split_bytes zero a t v e =
    (to_be_bytes t v, omega (arith, length-to_be_bytes t v), sym (append-nil (to_be_bytes t v)))
split_bytes (suc n) a zero v e = absurd (omega arith)
split_bytes (suc n) a (suc t) v e =
    let (front, sized, joined) = split_bytes n a t (v / 256) (omega arith) in
    (
      front,
      sized,
      ap (λ bs. bs ++ (v % 256 ∷ [])) joined
          ∙ append_assoc front (to_be_bytes n (v / 256)) (v % 256 ∷ []),
    )

low_bytes : (n v : ℕ) → n ≤ 32 → drop (32 - n) (to_be_bytes 32 v) ≡ to_be_bytes n v
low_bytes n v small =
    let (front, sized, joined) = split_bytes n (32 - n) 32 v (omega arith) in
    ap (drop (32 - n)) joined ∙ drop-append (32 - n) front (to_be_bytes n v) sized

bits_lem : (n : ℕ) → n ≤ 32 → 2 ^ (8 * n) ≡ 256 ^ n
unfolding all_below
bits_lem n small =
    (==_iff (2 ^ (8 * n)) (256 ^ n)).0
      (all_below_sound 33 (λ k. 2 ^ (8 * k) == 256 ^ k) refl n (omega (arith, small)))

-- The word of a value, at the width of its field.
abbrev word_of : FixedPoint → Option ℕ
word_of x =
    if x.format.is_signed
    then expect (to_twos x.units x.format.width)
    else expect (try_u256 x.units)

abbrev units_of : FixedFormat → ℕ → Result FixedError SignedUnits
units_of format value =
    if format.is_signed
    then or_overflow (from_twos value format.width)
    else amount_or (λ _. overflow) (signed_units false value)

-- The word exists, fits the width and gives the value back.
abbrev IsWordOf : FixedPoint → ℕ → Type 0
IsWordOf x v = (word_of x ≡ some v) × (v < 2 ^ x.format.width) × (units_of x.format v ≡ ok x.units)

represented :
    (b : Bool) (m w : ℕ)
    → 8 ≤ w
    → (b ≡ true → 0 < m)
    → InRange true w b m
    → (v : ℕ) × (v < 2 ^ w) × Represents (record { negative = b; magnitude = m }) w v
unfolding InRange
represented true m w low positive fits =
    let some_units : 0 < m = positive refl in
    (2 ^ w - m, omega (arith, half_lem w (omega arith)), inr (refl, some_units, fits, refl))
represented false m w low positive fits =
    (m, omega (arith, half_lem w (omega arith)), inl (refl, fits, refl))

signed_word : (x : FixedPoint) → IsFixed x → x.format.is_signed ≡ true → (v : ℕ) × IsWordOf x v
signed_word x ((low, high), normal_x, fits) kind =
    let (v, small, stands) =
      represented x.units.negative x.units.magnitude x.format.width low normal_x
        (subst (λ b. InRange b x.format.width x.units.negative x.units.magnitude) kind fits) in
    let word : v < 2 ^ 256 = omega (arith, small, power_le x.format.width high) in
    let written_v =
      (to_twos_iff x.units x.format.width v normal_x).1 ((omega arith, high), stands) in
    (
      v,
      (
        if_true x.format.is_signed _ _ kind ∙ ap expect written_v,
        small,
        if_true x.format.is_signed _ _ kind
            ∙ ap or_overflow ((twos_iff x.units x.format.width v normal_x word).0 written_v),
      ),
    )

unsigned_range :
    (b : Bool) (m w : ℕ) → (b ≡ true → 0 < m) → InRange false w b m → (b ≡ false) × (m < 2 ^ w)
unfolding InRange
unsigned_range true m w positive fits = absurd (omega (arith, positive refl))
unsigned_range false m w positive fits = (refl, fits)

unsigned_word : (x : FixedPoint) → IsFixed x → x.format.is_signed ≡ false → (v : ℕ) × IsWordOf x v
unfolding try_u256 signed_units
unsigned_word x ((low, high), normal_x, fits) kind =
    let m = x.units.magnitude in
    let (plain, small) =
      unsigned_range x.units.negative m x.format.width normal_x
        (subst (λ b. InRange b x.format.width x.units.negative m) kind fits) in
    let word : m < 2 ^ 256 = omega (arith, small, power_le x.format.width high) in
    let written_m : try_u256 x.units ≡ ok m =
      (reject_if_iff x.units.negative _ _ m).1
        (plain, (reject_if_iff (not (ltb m (2 ^ 256))) _ (ok m) m).1 (ground arith, refl)) in
    let same_units : record { negative = false; magnitude = m } ≡ x.units = cc plain in
    (
      m,
      (
        if_false x.format.is_signed _ _ kind ∙ ap expect written_m,
        small,
        if_false x.format.is_signed _ _ kind
            ∙ ap (amount_or (λ _. overflow)) (
                (reject_if_iff (ltb (2 ^ 511) m || (not false && m == 2 ^ 511)) _ _ x.units).1
                  (ground arith, ap ok same_units)),
      ),
    )

some_word : (x : FixedPoint) → IsFixed x → (v : ℕ) × IsWordOf x v
some_word x fixed = elim (Bool-cases x.format.is_signed) [
  | inl kind ↦ signed_word x fixed kind
  | inr kind ↦ unsigned_word x fixed kind
]

normal_same : (b : Bool) (m : ℕ) → (b ≡ true → 0 < m) → (b && not (m == 0)) ≡ b
normal_same true m positive = let some_units : 0 < m = positive refl in ground arith
normal_same false m positive = refl

-- The bytes of a word are read back as the value of the field.
bytes_of_word :
    (x : FixedPoint) (v n : ℕ)
    → IsFixed x
    → x.format.width ≡ 8 * n
    → IsWordOf x v
    → from_bytes (to_be_bytes n v) x.format ≡ ok x
unfolding from_bytes
bytes_of_word x v n (field, normal_x, fits) wide (written_v, small, units) =
    let bytes = to_be_bytes n v in
    let few : n ≤ 32 = omega (arith, field.1) in
    let fitting : v < 256 ^ n = omega (arith, small, ap (λ k. 2 ^ k) wide, bits_lem n few) in
    let value : from_be_bytes (strip_zeros_left bytes) ≡ v =
      from_be_bytes-strip_zeros_left bytes ∙ from_be_bytes-to_be_bytes n v fitting in
    let finish : Result FixedError SignedUnits → Result FixedError FixedPoint =
      λ r. r >>= λ u. parts u.negative u.magnitude x.format in
    let signs = normal_same x.units.negative x.units.magnitude normal_x in
    let same_point : point x.format (normal x.units.negative x.units.magnitude) ≡ x = cc signs in
    let built =
      (parts_iff x.format x.units.negative x.units.magnitude x field).1 (same_point, fits) in
    let counted = length-to_be_bytes n v in
    (reject_if_iff (ltb 32 (length bytes)) overflow _ x).1 (
      le→not_ltb (length bytes) 32 (omega (arith, counted)),
      (reject_if_iff (ltb (x.format.width / 8) (length (strip_zeros_left bytes))) overflow _ x).1 (
        le→not_ltb (length (strip_zeros_left bytes)) (x.format.width / 8)
            (omega (arith, wide, counted, length-strip_zeros_left bytes)),
        ap (λ k. finish (units_of x.format k)) value ∙ ap finish units ∙ built,
      ),
    )

-- A value in the range of a field of whole bytes is written in as many bytes as its field has, without
-- a panic, and they are read back as the value.
pub from_bytes-to_bytes :
    (x : FixedPoint)
    → IsFixed x
    → x.format.width % 8 ≡ 0
    → (bytes : List ℕ) × (to_bytes x ≡ some bytes)
      × (length bytes ≡ x.format.width / 8)
      × (from_bytes bytes x.format ≡ ok x)
unfolding to_bytes
from_bytes-to_bytes x fixed whole =
    let n = x.format.width / 8 in
    let (v, word) = some_word x fixed in
    (
      to_be_bytes n v,
      ap (written (drop (32 - n))) word.0 ∙ ap some (low_bytes n v (omega (arith, fixed.0.1))),
      length-to_be_bytes n v,
      bytes_of_word x v n fixed (omega (arith, whole)) word,
    )
