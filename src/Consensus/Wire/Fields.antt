-- ===== src/Consensus/Wire/Fields.antt =====
-- A field takes at least one byte, and what it holds is shorter than it.
use quai_rust_sdk.Prelude.{
  ℕ, zero, suc, ◌+◌, ◌*◌, ◌/◌, ◌%◌, ◌^◌, ◌≤◌, ◌<◌, ◌==◌, ◌≡◌, refl, ap, subst, ◌⊎◌, inl, inr, arith,
  leb, ltb, Bool, true, false, ◌&&◌, if◌then◌else◌, List, [], ◌∷◌, length, none, some,
  some_injective, Result, ok, ok-injective, ◌>>=◌, >>=_iff, reject_if_iff, if-ok_iff,
}
use quai_rust_sdk.Primitives.Bytes.{take, drop}
use quai_rust_sdk.Consensus.Error.{TransactionError, invalid_encoding}
use quai_rust_sdk.Consensus.Wire.{Field, varint_loop, skip, read_part, read_value, read_field}

pub length-drop_le : (n : ℕ) (xs : List ℕ) → length (drop n xs) ≤ length xs
length-drop_le zero xs = omega arith
length-drop_le (suc n) [] = omega arith
length-drop_le (suc n) (x ∷ xs) = omega (arith, length-drop_le n xs)

length-take_le : (n : ℕ) (xs : List ℕ) → length (take n xs) ≤ length xs
length-take_le zero xs = omega arith
length-take_le (suc n) [] = omega arith
length-take_le (suc n) (x ∷ xs) = omega (arith, length-take_le n xs)

-- A conditional that succeeds succeeded in one of its branches.
pub if_ok :
    {A : Type 0} (b : Bool) (x y : Result TransactionError A) (a : A)
    → (if b then x else y) ≡ ok a
    → ((b ≡ true) × (x ≡ ok a)) ⊎ ((b ≡ false) × (y ≡ ok a))
if_ok true x y a h = inl (refl, h)
if_ok false x y a h = inr (refl, h)

pub varint_loop-shorter :
    (rounds shift n : ℕ) (bytes : List ℕ) (v : ℕ) (rest : List ℕ)
    → varint_loop rounds shift n bytes ≡ ok (v, rest)
    → length rest < length bytes
unfolding varint_loop
varint_loop-shorter zero shift n bytes v rest h = cc
varint_loop-shorter (suc rounds) shift n [] v rest h = cc
varint_loop-shorter (suc rounds) shift n (b ∷ bs) v rest h =
    let sum = n + b % 128 * 2 ^ shift in
    let (_, h1) = (reject_if_iff (shift == 63 && ltb 1 b) invalid_encoding _ (v, rest)).0 h in
    elim (if_ok (ltb b 128) (ok (sum, bs)) (varint_loop rounds (shift + 7) sum bs) (v, rest) h1) [
      | inl (_, e) ↦
          let same : length bs ≡ length rest =
            ap (λ (p : ℕ × List ℕ). length p.1) (ok-injective e) in
          omega arith
      | inr (_, e) ↦
          let less = varint_loop-shorter rounds (shift + 7) sum bs v rest e in omega arith
    ]

skip-shorter : (n : ℕ) (bytes rest : List ℕ) → skip n bytes ≡ ok rest → length rest ≤ length bytes
unfolding skip
skip-shorter n bytes rest h =
    let (_, e) = (if-ok_iff (leb n (length bytes)) invalid_encoding (drop n bytes) rest).0 h in
    subst (λ (xs : List ℕ). length xs ≤ length bytes) e (length-drop_le n bytes)

-- What the field holds and what is behind it are within `n` bytes.
abbrev pub IsWithin : ℕ → Field → Type 0
IsWithin n f = (length f.rest ≤ n) × ((p : List ℕ) → f.part ≡ some p → length p ≤ n)

plain-IsWithin :
    (tag n : ℕ) (rest : List ℕ)
    → length rest ≤ n
    → IsWithin n (record { tag = tag; part = none; rest = rest })
plain-IsWithin tag n rest h = (h, λ p e. cc)

read_part-IsWithin :
    (tag : ℕ) (bytes : List ℕ) (f : Field) → read_part tag bytes ≡ ok f → IsWithin (length bytes) f
unfolding read_part
read_part-IsWithin tag bytes f h =
    let ((len, body), e, h1) = (>>=_iff (varint_loop 10 0 0 bytes) _ f).0 h in
    let (_, same) = (if-ok_iff (leb len (length body)) invalid_encoding _ f).0 h1 in
    let less = varint_loop-shorter 10 0 0 bytes len body e in
    subst (IsWithin (length bytes)) same (
      omega (arith, less, length-drop_le len body),
      λ p part.
          subst (λ (xs : List ℕ). length xs ≤ length bytes) (some_injective part)
            (omega (arith, less, length-take_le len body)),
    )

skipped-IsWithin :
    (tag n : ℕ) (bytes : List ℕ) (f : Field)
    → (skip n bytes >>= λ rest. ok (record { tag = tag; part = none; rest = rest })) ≡ ok f
    → IsWithin (length bytes) f
skipped-IsWithin tag n bytes f h =
    let (rest, e, same) = (>>=_iff (skip n bytes) _ f).0 h in
    subst (IsWithin (length bytes)) (ok-injective same)
      (plain-IsWithin tag (length bytes) rest (skip-shorter n bytes rest e))

read_value-IsWithin :
    (tag wire_type : ℕ) (bytes : List ℕ) (f : Field)
    → read_value tag wire_type bytes ≡ ok f
    → IsWithin (length bytes) f
unfolding read_value
read_value-IsWithin tag wire_type bytes f h = elim (if_ok (wire_type == 0) _ _ f h) [
  | inl (_, e) ↦
      let ((n, rest), e1, e2) = (>>=_iff (varint_loop 10 0 0 bytes) _ f).0 e in
      subst (IsWithin (length bytes)) (ok-injective e2) (
        plain-IsWithin tag (length bytes) rest
          (omega (arith, varint_loop-shorter 10 0 0 bytes n rest e1)))
  | inr (_, h1) ↦ elim (if_ok (wire_type == 1) _ _ f h1) [
    | inl (_, e) ↦ skipped-IsWithin tag 8 bytes f e
    | inr (_, h2) ↦ elim (if_ok (wire_type == 5) _ _ f h2) [
      | inl (_, e) ↦ skipped-IsWithin tag 4 bytes f e
      | inr (_, h3) ↦ elim (if_ok (wire_type == 2) _ _ f h3) [
        | inl (_, e) ↦ read_part-IsWithin tag bytes f e
        | inr (_, e) ↦ cc
      ]
    ]
  ]
]

pub read_field-IsShorter :
    (bytes : List ℕ) (f : Field)
    → read_field bytes ≡ ok f
    → (length f.rest < length bytes) × ((p : List ℕ) → f.part ≡ some p → length p < length bytes)
unfolding read_field
read_field-IsShorter bytes f h =
    let ((key, rest), e, h1) = (>>=_iff (varint_loop 10 0 0 bytes) _ f).0 h in
    let (_, h2) = (reject_if_iff (key / 8 == 0) invalid_encoding _ f).0 h1 in
    let less = varint_loop-shorter 10 0 0 bytes key rest e in
    let (within, parts) = read_value-IsWithin (key / 8) (key % 8) rest f h2 in
    (omega (arith, less, within), λ p part. omega (arith, less, parts p part))
