-- ===== src/Consensus/Wire/Varints.antt =====
-- The lenient reader of a varint agrees with the strict one where that succeeds.
use quai_rust_sdk.Prelude.{
  ℕ, zero, suc, ◌+◌, ◌*◌, ◌%◌, ◌^◌, ◌≤◌, ◌<◌, ◌==◌, ◌≡◌, refl, sym, ap, subst, ◌∙◌, inl, inr, arith,
  leb, ltb, leb→le, false, Bool-cases, ◌&&◌, List, [], ◌∷◌, length, some, ok, ok-injective,
  reject_if_iff, if_true, if_false,
}
use native.Mathlib.Nat.{mod-eq_of_lt, mul-le-mul, pow-le-pow_right}
use quai_rust_sdk.Primitives.Bytes.{drop}
use quai_rust_sdk.Consensus.Error.{invalid_encoding}
use quai_rust_sdk.Consensus.Wire.{varint_loop}
use quai_rust_sdk.Consensus.Wire.Fields.{if_ok}
use quai_rust_sdk.Consensus.Wire.Scan.{lenient_loop}

-- The bits of the byte `i` fit the word when the strict reader lets the byte pass.
group_fits : (b i : ℕ) → i ≤ 9 → (7 * i == 63 && ltb 1 b) ≡ false → b % 128 * 2 ^ (7 * i) < 2 ^ 64
group_fits b i h guard = elim (Bool-cases (leb i 8)) [
  | inl e ↦
      let small : 2 ^ (7 * i) ≤ 2 ^ 56 =
        pow-le-pow_right {n = 2} (omega arith) {j = 56} (omega (arith, leb→le i 8 e)) in
      let digit : b % 128 ≤ 127 = omega arith in
      let bound : b % 128 * 2 ^ (7 * i) ≤ 127 * 2 ^ 56 = mul-le-mul digit small in
      omega (arith, bound)
  | inr e ↦
      let last : i ≡ 9 = ground arith in
      let one : b ≤ 1 = ground (arith, last) in
      subst (λ (k : ℕ). b % 128 * 2 ^ (7 * k) < 2 ^ 64) (sym last) (omega (arith, one))
]

pub pair_path : {A B : Type 0} {a c : A} {b d : B} → a ≡ c → b ≡ d → ◌≡◌ {A = A × B} (a, b) (c, d)
pair_path e f = cc (e, f)

lenient_loop-varint_loop :
    (rounds i n : ℕ) (bytes : List ℕ) (v : ℕ) (rest : List ℕ) (shift : ℕ)
    → rounds + i ≤ 10
    → shift ≡ 7 * i
    → varint_loop rounds shift n bytes ≡ ok (v, rest)
    → (k : ℕ) × (lenient_loop rounds i n bytes ≡ some (v, i + k))
      × (drop k bytes ≡ rest)
      × (k ≤ length bytes)
      × (k ≤ rounds)
unfolding varint_loop lenient_loop
lenient_loop-varint_loop zero i n bytes v rest shift small e h = cc
lenient_loop-varint_loop (suc rounds) i n [] v rest shift small e h = cc
lenient_loop-varint_loop (suc rounds) i n (b ∷ bs) v rest shift small e h =
    let sum = n + b % 128 * 2 ^ shift in
    let wrapped = n + b % 128 * 2 ^ (7 * i) % 2 ^ 64 in
    let (guard, h1) = (reject_if_iff (shift == 63 && ltb 1 b) invalid_encoding _ (v, rest)).0 h in
    let fits =
      group_fits b i (omega (arith, small)) (ap (λ (t : ℕ). t == 63 && ltb 1 b) (sym e) ∙ guard) in
    let same : wrapped ≡ sum =
      ap (λ (t : ℕ). n + t) (mod-eq_of_lt fits) ∙ ap (λ (t : ℕ). n + b % 128 * 2 ^ t) (sym e) in
    elim (if_ok (ltb b 128) (ok (sum, bs)) (varint_loop rounds (shift + 7) sum bs) (v, rest) h1) [
      | inl (last, e1) ↦
          let value : sum ≡ v = ap (λ (p : ℕ × List ℕ). p.0) (ok-injective e1) in
          let behind : bs ≡ rest = ap (λ (p : ℕ × List ℕ). p.1) (ok-injective e1) in
          (
            1,
            if_true (ltb b 128) _ _ last ∙ ap some (pair_path (same ∙ value) (omega arith)),
            behind,
            omega arith,
            omega arith,
          )
      | inr (more, e1) ↦
          let (k, found, behind, within, rounds_left) =
            lenient_loop-varint_loop rounds (suc i) sum bs v rest (shift + 7) (omega (arith, small))
              (omega (arith, e)) e1 in
          (
            suc k,
            if_false (ltb b 128) _ _ more
                ∙ ap (λ (t : ℕ). lenient_loop rounds (suc i) t bs) same
                ∙ found
                ∙ ap some (pair_path refl (omega arith)),
            behind,
            omega (arith, within),
            omega (arith, rounds_left),
          )
    ]

pub lenient-varint_loop :
    (bytes : List ℕ) (v : ℕ) (rest : List ℕ)
    → varint_loop 10 0 0 bytes ≡ ok (v, rest)
    → (k : ℕ) × (lenient_loop 10 0 0 bytes ≡ some (v, k))
      × (drop k bytes ≡ rest)
      × (k ≤ length bytes)
      × (k ≤ 10)
lenient-varint_loop bytes v rest h =
    let (k, found, behind, within, small) =
      lenient_loop-varint_loop 10 0 0 bytes v rest 0 (omega arith) refl h in
    (k, found ∙ ap some (pair_path refl (omega arith)), behind, within, small)
