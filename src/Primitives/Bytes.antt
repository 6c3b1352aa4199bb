-- ===== src/Primitives/Bytes.antt =====
-- Byte slices and integers written in bytes, as the standard library has them.
use quai_rust_sdk.Prelude.{
  ℕ, zero, suc, ◌+◌, ◌*◌, ◌/◌, ◌%◌, ◌^◌, ◌<◌, ◌≡◌, refl, ◌∙◌, ap, List, [], ◌∷◌, ◌++◌, length,
  length-append, arith,
}
use native.Mathlib.Nat.{pow-suc}

abbrev pub take : ℕ → List ℕ → List ℕ
take zero xs = []
take (suc n) [] = []
take (suc n) (x ∷ xs) = x ∷ take n xs

abbrev pub drop : ℕ → List ℕ → List ℕ
drop zero xs = xs
drop (suc n) [] = []
drop (suc n) (x ∷ xs) = drop n xs

-- `to_be_bytes` of an integer of `width` bytes, and `from_be_bytes`.
unfoldable pub to_be_bytes : ℕ → ℕ → List ℕ
to_be_bytes zero n = []
to_be_bytes (suc width) n = to_be_bytes width (n / 256) ++ (n % 256 ∷ [])

unfoldable pub from_be : ℕ → List ℕ → ℕ
from_be acc [] = acc
from_be acc (b ∷ bs) = from_be (acc * 256 + b) bs

abbrev pub from_be_bytes : List ℕ → ℕ
from_be_bytes bs = from_be 0 bs

-- Slices of appended bytes, and integers read back.
pub take-append : (n : ℕ) (xs ys : List ℕ) → length xs ≡ n → take n (xs ++ ys) ≡ xs
take-append zero [] ys h = refl
take-append zero (x ∷ xs) ys h = absurd (omega arith)
take-append (suc n) [] ys h = absurd (omega arith)
take-append (suc n) (x ∷ xs) ys h = ap (λ rest. x ∷ rest) (take-append n xs ys (omega arith))

pub drop-append : (n : ℕ) (xs ys : List ℕ) → length xs ≡ n → drop n (xs ++ ys) ≡ ys
drop-append zero [] ys h = refl
drop-append zero (x ∷ xs) ys h = absurd (omega arith)
drop-append (suc n) [] ys h = absurd (omega arith)
drop-append (suc n) (x ∷ xs) ys h = drop-append n xs ys (omega arith)

pub length-to_be_bytes : (width n : ℕ) → length (to_be_bytes width n) ≡ width
unfolding to_be_bytes
length-to_be_bytes zero n = refl
length-to_be_bytes (suc width) n = omega (
  arith,
  length-append (to_be_bytes width (n / 256)) (n % 256 ∷ []),
  length-to_be_bytes width (n / 256),
)

from_be-snoc : (acc b : ℕ) (bs : List ℕ) → from_be acc (bs ++ (b ∷ [])) ≡ from_be acc bs * 256 + b
unfolding from_be
from_be-snoc acc b [] = refl
from_be-snoc acc b (x ∷ bs) = from_be-snoc (acc * 256 + x) b bs

-- An integer that fits its width is read as it was written.
pub from_be_bytes-to_be_bytes :
    (width n : ℕ) → n < 256 ^ width → from_be_bytes (to_be_bytes width n) ≡ n
unfolding to_be_bytes
from_be_bytes-to_be_bytes zero n h = unfold from_be in omega arith
from_be_bytes-to_be_bytes (suc width) n h =
    from_be-snoc 0 (n % 256) (to_be_bytes width (n / 256))
    ∙ omega (arith, from_be_bytes-to_be_bytes width (n / 256) (omega (arith, pow-suc 256 width)))

-- A slice behind a prefix.
pub drop_behind : (n k : ℕ) (xs ys : List ℕ) → k ≡ length xs + n → drop k (xs ++ ys) ≡ drop n ys
drop_behind n k [] ys h = ap (λ k. drop k ys) (no_prefix h)
  where
    no_prefix : k ≡ 0 + n → k ≡ n
    no_prefix h = omega arith
drop_behind n zero (x ∷ xs) ys h = absurd (omega arith)
drop_behind n (suc k) (x ∷ xs) ys h = drop_behind n k xs ys (omega arith)
