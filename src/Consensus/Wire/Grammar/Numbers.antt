-- ===== src/Consensus/Wire/Grammar/Numbers.antt =====
-- The reader of a varint accepts the numbers of the wire format, and no others.
use quai_rust_sdk.Prelude.{
  ℕ, zero, suc, ◌+◌, ◌*◌, ◌%◌, ◌^◌, ◌≤◌, ◌<◌, ◌==◌, ◌≡◌, ◌↔◌, refl, sym, ap, subst, ◌∙◌, inl, inr,
  arith, ltb, false, ltb→lt, lt→ltb, le→not_ltb, not_ltb→le, ◌&&◌, List, [], ◌∷◌, ◌++◌, length, ok,
  ok-injective, reject_if_iff, if_true, if_false,
}
use native.Mathlib.Nat.{mod-eq_of_lt, pow-suc}
use quai_rust_sdk.Consensus.Error.{invalid_encoding}
use quai_rust_sdk.Consensus.Wire.{varint_loop, varint}
use quai_rust_sdk.Consensus.Wire.Fields.{if_ok}
use quai_rust_sdk.Consensus.Wire.Grammar.{IsVarint, last, more, IsNumber}

-- What `rounds` bytes can hold, when the last of ten holds one bit.
abbrev limit : ℕ → ℕ
limit zero = 0
limit (suc zero) = 2
limit (suc (suc rounds)) = 128 * limit (suc rounds)

next_power : (shift : ℕ) → 2 ^ (shift + 7) ≡ 2 ^ shift * 128
next_power shift =
    ap (λ k. 2 ^ k) seven
    ∙ omega (
      arith,
      pow-suc 2 shift,
      pow-suc 2 (suc shift),
      pow-suc 2 (suc (suc shift)),
      pow-suc 2 (suc (suc (suc shift))),
      pow-suc 2 (suc (suc (suc (suc shift)))),
      pow-suc 2 (suc (suc (suc (suc (suc shift))))),
      pow-suc 2 (suc (suc (suc (suc (suc (suc shift)))))),
    )
  where
    seven : shift + 7 ≡ suc (suc (suc (suc (suc (suc (suc shift))))))
    seven = omega arith

sum_lem :
    (n d m shift : ℕ) → n + d * 2 ^ shift + m * 2 ^ (shift + 7) ≡ n + (d + 128 * m) * 2 ^ shift
sum_lem n d m shift = ap (λ p. n + d * 2 ^ shift + m * p) (next_power shift) ∙ spread (2 ^ shift)
  where
    spread : (p : ℕ) → n + d * p + m * (p * 128) ≡ n + (d + 128 * m) * p
    spread p = grind arith

abbrev IsRead : ℕ → ℕ → ℕ → List ℕ → ℕ → List ℕ → Type 0
IsRead rounds shift n bytes v rest =
    (part : List ℕ) × (m : ℕ) × IsVarint part m
    × (bytes ≡ part ++ rest)
    × (length part ≤ rounds)
    × (m < limit rounds)
    × (v ≡ n + m * 2 ^ shift)

limit_positive : (rounds : ℕ) → 1 ≤ limit (suc rounds)
limit_positive zero = omega arith
limit_positive (suc rounds) = omega (arith, limit_positive rounds)

last_bound :
    (rounds shift b : ℕ)
    → shift + 7 * suc rounds ≡ 70
    → (shift == 63 && ltb 1 b) ≡ false
    → b < 128
    → b < limit (suc rounds)
last_bound zero shift b e guard small = ground (arith, e)
last_bound (suc rounds) shift b e guard small = omega (arith, small, limit_positive rounds)

varint_loop_sound :
    (rounds shift n : ℕ) (bytes : List ℕ) (v : ℕ) (rest : List ℕ)
    → shift + 7 * rounds ≡ 70
    → varint_loop rounds shift n bytes ≡ ok (v, rest)
    → IsRead rounds shift n bytes v rest
unfolding varint_loop
varint_loop_sound zero shift n bytes v rest e h = cc
varint_loop_sound (suc rounds) shift n [] v rest e h = cc
varint_loop_sound (suc rounds) shift n (b ∷ bs) v rest e h =
    let sum = n + b % 128 * 2 ^ shift in
    let (guard, h1) = (reject_if_iff (shift == 63 && ltb 1 b) invalid_encoding _ (v, rest)).0 h in
    elim (if_ok (ltb b 128) (ok (sum, bs)) (varint_loop rounds (shift + 7) sum bs) (v, rest) h1) [
      | inl (low, e1) ↦
          let small : b < 128 = ltb→lt b 128 low in
          (
            b ∷ [],
            b,
            last b small,
            ap (λ (p : ℕ × List ℕ). b ∷ p.1) (ok-injective e1),
            one_byte rounds,
            last_bound rounds shift b e guard small,
            sym (ap (λ (p : ℕ × List ℕ). p.0) (ok-injective e1))
                ∙ ap (λ d. n + d * 2 ^ shift) (mod-eq_of_lt small),
          )
      | inr (high, e1) ↦
          longer b rounds (not_ltb→le b 128 high)
            (varint_loop_sound rounds (shift + 7) sum bs v rest (omega (arith, e)) e1)
    ]
  where
    one_byte : (r : ℕ) → 1 ≤ suc r
    one_byte r = omega arith

    longer :
        (b rounds : ℕ)
        → 128 ≤ b
        → IsRead rounds (shift + 7) (n + b % 128 * 2 ^ shift) bs v rest
        → IsRead (suc rounds) shift n (b ∷ bs) v rest
    longer b zero high (part, m, is, split, size, small, same) = absurd (omega (arith, small))
    longer b (suc r) high (part, m, is, split, size, small, same) = (
      b ∷ part,
      b % 128 + 128 * m,
      more b part m high is,
      ap (λ xs. b ∷ xs) split,
      omega (arith, size),
      omega (arith, small),
      same ∙ sum_lem n (b % 128) m shift,
    )

-- Only the last of ten bytes is held to one bit.
passes :
    (r shift b : ℕ) → shift + 7 * suc r ≡ 70 → (r ≡ 0 → b ≤ 1) → (shift == 63 && ltb 1 b) ≡ false
passes zero shift b e h = let low : b ≤ 1 = h refl in ground (arith, low)
passes (suc r) shift b e h = ground (arith, e)

one_bit : (r b : ℕ) → b < limit (suc r) → r ≡ 0 → b ≤ 1
one_bit zero b small e = omega arith
one_bit (suc r) b small e = absurd (omega arith)

IsVarint-nonempty : {bs : List ℕ} {m : ℕ} → IsVarint bs m → 1 ≤ length bs
IsVarint-nonempty (last b low) = omega arith
IsVarint-nonempty (more b bs m high is) = omega arith

varint_loop_complete :
    (rounds shift n : ℕ) (part : List ℕ) (m : ℕ) (rest : List ℕ)
    → shift + 7 * rounds ≡ 70
    → IsVarint part m
    → length part ≤ rounds
    → m < limit rounds
    → varint_loop rounds shift n (part ++ rest) ≡ ok (n + m * 2 ^ shift, rest)
unfolding varint_loop
varint_loop_complete zero shift n _ _ rest e (last b low) size small = absurd (omega (arith, size))
varint_loop_complete zero shift n _ _ rest e (more b bs m high is) size small =
    absurd (omega (arith, size))
varint_loop_complete (suc rounds) shift n _ _ rest e (last b low) size small =
    (reject_if_iff (shift == 63 && ltb 1 b) invalid_encoding _ _).1 (
      passes rounds shift b e (one_bit rounds b small),
      if_true (ltb b 128) _ _ (lt→ltb b 128 low)
          ∙ ap (λ d. ok (n + d * 2 ^ shift, rest)) (mod-eq_of_lt low),
    )
varint_loop_complete (suc zero) shift n _ _ rest e (more b bs m high is) size small =
    absurd (omega (arith, size, IsVarint-nonempty is))
varint_loop_complete (suc (suc rounds)) shift n _ _ rest e (more b bs m high is) size small =
    (reject_if_iff (shift == 63 && ltb 1 b) invalid_encoding _ _).1 (
      passes (suc rounds) shift b e (λ zero_. absurd (omega arith)),
      if_false (ltb b 128) _ _ (le→not_ltb 128 b high)
          ∙ varint_loop_complete (suc rounds) (shift + 7) (n + b % 128 * 2 ^ shift) bs m rest
              (omega (arith, e)) is (omega (arith, size)) (omega (arith, small))
          ∙ ap (λ v. ok (v, rest)) (sum_lem n (b % 128) m shift),
    )

-- A varint is read exactly when the bytes start with a number of the wire format.
pub varint_iff :
    (bytes : List ℕ) (n : ℕ) (rest : List ℕ)
    → (varint bytes ≡ ok (n, rest)) ↔ ((part : List ℕ) × (bytes ≡ part ++ rest) × IsNumber part n)
varint_iff bytes n rest = (
  λ h.
      let (part, m, is, split, size, small, same) =
        varint_loop_sound 10 0 0 bytes n rest (omega arith) h in
      let value : m ≡ n = omega (arith, same) in
      (part, split, (subst (IsVarint part) value is, size, omega (arith, small, value))),
  λ (part, split, (is, size, small)).
      ap varint split
      ∙ varint_loop_complete 10 0 0 part n rest (omega arith) is size small
      ∙ ap (λ v. ok (v, rest)) (omega arith),
)
