-- ===== src/Primitives/Fixed/Rounded.antt =====
-- Rounding a quotient follows its policy (crates/quai-primitives/src/fixed.rs, `rounded`).
use quai_rust_sdk.Prelude.{
  ℕ, ◌+◌, ◌-◌, ◌*◌, ◌/◌, ◌%◌, ◌^◌, ◌≤◌, ◌<◌, ◌==◌, ltb, Bool, true, false, if◌then◌else◌, Result,
  ok, ok-injective, ok_or, none, some, lt→ltb, subst, ◌>>=◌, >>=_iff, reject_if_iff, ==_iff, ◌≡◌,
  refl, sym, ap, ◌∙◌, ◌↔◌, ◌⊎◌, inl, inr, arith,
}
use native.Mathlib.Nat.{lt_of_mul-lt-mul_right, suc-mul, div-add-mod', mod-lt, le-mul_of_pos_right}
use quai_rust_sdk.Prelude.Words.{checked_add}
use quai_rust_sdk.Primitives.Fixed.{
  overflow, division_by_zero, Rounding, exact, toward_zero, floor, ceiling, nearest_ties_even,
  nearest_ties_positive, FixedError, is_nearer, rounds_up, rounded,
}

-- `q` units of `d` are `v` rounded down, up or to the nearest.
abbrev pub IsDown : ℕ → ℕ → ℕ → Type 0
IsDown v d q = (q * d ≤ v) × (v < q * d + d)

abbrev pub IsUp : ℕ → ℕ → ℕ → Type 0
IsUp v d q = (v ≤ q * d) × (q * d < v + d)

abbrev pub IsNearest : ℕ → ℕ → ℕ → Type 0
IsNearest v d q = (2 * v ≤ 2 * (q * d) + d) × (2 * (q * d) ≤ 2 * v + d)

-- What a policy asks of the magnitude `q` for the magnitude `v` in units of `d`. Of two nearest
-- magnitudes, ties to even take the even one, and ties to positive that of the larger value.
unfoldable pub IsRounded : Rounding → Bool → ℕ → ℕ → ℕ → Type 0
IsRounded exact negative v d q = q * d ≡ v
IsRounded toward_zero negative v d q = IsDown v d q
IsRounded floor true v d q = IsUp v d q
IsRounded floor false v d q = IsDown v d q
IsRounded ceiling true v d q = IsDown v d q
IsRounded ceiling false v d q = IsUp v d q
IsRounded nearest_ties_even negative v d q =
    IsNearest v d q × (2 * v ≡ 2 * (q * d) + d → q % 2 ≡ 0) × (2 * (q * d) ≡ 2 * v + d → q % 2 ≡ 0)
IsRounded nearest_ties_positive true v d q = IsNearest v d q × (2 * (q * d) < 2 * v + d)
IsRounded nearest_ties_positive false v d q = IsNearest v d q × (2 * v < 2 * (q * d) + d)

-- The quotient of a value with a remainder is increased exactly when the policy asks for it.
rounds_up_iff :
    (mode : Rounding) (negative : Bool) (v d r q : ℕ) (up : Bool)
    → v ≡ q * d + r
    → 0 < r
    → r < d
    → (q + 1) * d ≡ q * d + d
    → (rounds_up q r (d - r) negative mode ≡ ok up)
      ↔ IsRounded mode negative v d (if up then q + 1 else q)
unfolding rounds_up is_nearer IsRounded
rounds_up_iff exact negative v d r q true e low high next = ground arith
rounds_up_iff exact negative v d r q false e low high next = ground arith
rounds_up_iff toward_zero negative v d r q true e low high next = ground arith
rounds_up_iff toward_zero negative v d r q false e low high next = ground arith
rounds_up_iff floor true v d r q true e low high next = ground arith
rounds_up_iff floor true v d r q false e low high next = ground arith
rounds_up_iff floor false v d r q true e low high next = ground arith
rounds_up_iff floor false v d r q false e low high next = ground arith
rounds_up_iff ceiling true v d r q true e low high next = ground arith
rounds_up_iff ceiling true v d r q false e low high next = ground arith
rounds_up_iff ceiling false v d r q true e low high next = ground arith
rounds_up_iff ceiling false v d r q false e low high next = ground arith
rounds_up_iff nearest_ties_even negative v d r q true e low high next = ground arith
rounds_up_iff nearest_ties_even negative v d r q false e low high next = ground arith
rounds_up_iff nearest_ties_positive true v d r q true e low high next = ground arith
rounds_up_iff nearest_ties_positive true v d r q false e low high next = ground arith
rounds_up_iff nearest_ties_positive false v d r q true e low high next = ground arith
rounds_up_iff nearest_ties_positive false v d r q false e low high next = ground arith

-- Every policy answers within one unit of the value.
close :
    (mode : Rounding) (negative : Bool) (v d q : ℕ)
    → 0 < d
    → IsRounded mode negative v d q
    → (q * d < v + d) × (v < q * d + d)
unfolding IsRounded
close exact negative v d q pos h = ground arith
close toward_zero negative v d q pos h = ground arith
close floor true v d q pos h = ground arith
close floor false v d q pos h = ground arith
close ceiling true v d q pos h = ground arith
close ceiling false v d q pos h = ground arith
close nearest_ties_even negative v d q pos h = ground arith
close nearest_ties_positive true v d q pos h = ground arith
close nearest_ties_positive false v d q pos h = ground arith

-- A multiple within one unit of `p * d + r` is `p` or the next.
beside :
    (d p r q : ℕ)
    → r < d
    → (q * d < p * d + r + d) × (p * d + r < q * d + d)
    → (q ≡ p) ⊎ ((q ≡ p + 1) × (0 < r))
beside d p r q small (high, low) =
    let over : q < p + 2 =
      lt_of_mul-lt-mul_right d (omega (arith, high, small, suc-mul (p + 1) d, suc-mul p d)) in
    let under : p < q + 1 = lt_of_mul-lt-mul_right d (omega (arith, low, suc-mul q d)) in
    by_test (q == p) refl over under
  where
    by_test : (t : Bool) → (q == p) ≡ t → q < p + 2 → p < q + 1 → (q ≡ p) ⊎ ((q ≡ p + 1) × (0 < r))
    by_test true e over under = inl ((==_iff q p).0 e)
    by_test false e over under =
        let next : q ≡ p + 1 = ground arith in
        inr (next, omega (arith, high, suc-mul p d, ap (λ k. k * d) next))

-- Without a remainder every policy answers the quotient.
settled :
    (mode : Rounding) (negative : Bool) (d p : ℕ) → 0 < d → IsRounded mode negative (p * d) d p
unfolding IsRounded
settled exact negative d p pos = refl
settled toward_zero negative d p pos = ground arith
settled floor true d p pos = ground arith
settled floor false d p pos = ground arith
settled ceiling true d p pos = ground arith
settled ceiling false d p pos = ground arith
settled nearest_ties_even negative d p pos = ground arith
settled nearest_ties_positive true d p pos = ground arith
settled nearest_ties_positive false d p pos = ground arith

pub added_iff :
    (p b q : ℕ)
    → p + b < 2 ^ 1024
    → (ok_or {A = ℕ} (checked_add 1024 p b) overflow ≡ ok q) ↔ (q ≡ p + b)
added_iff p b q bounded = by_test (ltb (p + b) (2 ^ 1024)) (lt→ltb (p + b) (2 ^ 1024) bounded)
  where
    by_test :
        (t : Bool)
        → t ≡ true
        → (ok_or (if t then some (p + b) else none) overflow ≡ ok q) ↔ (q ≡ p + b)
    by_test true e = (λ h. sym (ok-injective h), λ h. ap ok (sym h))
    by_test false e = cc

-- The quotient is rounded by the policy, which determines the result.
divided_iff :
    (mode : Rounding) (negative : Bool) (v d r p q : ℕ)
    → v < 2 ^ 1024
    → v ≡ p * d + r
    → r < d
    → ((if r == 0
          then ok p
          else rounds_up p r (d - r) negative mode >>= λ up.
              ok_or (checked_add 1024 p (if up then 1 else 0)) overflow)
        ≡ ok q)
      ↔ IsRounded mode negative v d q
divided_iff mode negative v d r p q bounded e small = by_test (r == 0) refl
  where
    answer : Bool → Result FixedError ℕ
    answer t =
        if t
        then ok p
        else rounds_up p r (d - r) negative mode >>= λ up.
            ok_or (checked_add 1024 p (if up then 1 else 0)) overflow

    near : IsRounded mode negative v d q → (q ≡ p) ⊎ ((q ≡ p + 1) × (0 < r))
    near h =
        let (high, low) = close mode negative v d q (omega arith) h in
        beside d p r q small (omega (arith, high), omega (arith, low))

    stepped :
        0 < r
        → (up : Bool)
        → (rounds_up p r (d - r) negative mode ≡ ok up)
          ↔ IsRounded mode negative v d (if up then p + 1 else p)
    stepped positive up =
        rounds_up_iff mode negative v d r p up e positive small (omega (arith, suc-mul p d))

    fits : 0 < r → (up : Bool) → p + (if up then 1 else 0) < 2 ^ 1024
    fits positive true = omega (arith, le-mul_of_pos_right {m = d} p (omega arith))
    fits positive false = omega (arith, le-mul_of_pos_right {m = d} p (omega arith))

    reached : (up : Bool) → (if up then p + 1 else p) ≡ p + (if up then 1 else 0)
    reached true = refl
    reached false = omega arith

    by_test : (t : Bool) → (r == 0) ≡ t → (answer t ≡ ok q) ↔ IsRounded mode negative v d q
    by_test true exact_test =
        let none_left : r ≡ 0 = (==_iff r 0).0 exact_test in
        let whole : p * d ≡ v = omega arith in
        (
          λ h.
              subst (λ k. IsRounded mode negative v d k) (ok-injective h)
                (subst (λ k. IsRounded mode negative k d p) whole
                  (settled mode negative d p (omega arith))),
          λ h. elim (near h) [
            | inl same ↦ ap ok (sym same)
            | inr next ↦ absurd (omega (arith, next.1))
          ],
        )
    by_test false inexact =
        let positive : 0 < r = ground arith in
        (
          λ h.
              let (up, chosen, added) = (>>=_iff (rounds_up p r (d - r) negative mode) _ q).0 h in
              subst (λ k. IsRounded mode negative v d k)
                (reached up ∙ sym ((added_iff p _ q (fits positive up)).0 added))
                ((stepped positive up).0 chosen),
          λ h.
              let answers : (up : Bool) → q ≡ (if up then p + 1 else p) → answer false ≡ ok q =
                λ up same. (>>=_iff (rounds_up p r (d - r) negative mode) _ q).1 (
                  up,
                  (stepped positive up).1 (subst (λ k. IsRounded mode negative v d k) same h),
                  (added_iff p _ q (fits positive up)).1 (same ∙ reached up),
                ) in
              elim (near h) [ inl same ↦ answers false same | inr next ↦ answers true next.0 ],
        )

-- A quotient of a `Wide` is answered exactly when the divisor is positive and the answer is the
-- magnitude that the policy asks for; it never overflows.
pub rounded_iff :
    (value denominator : ℕ) (negative : Bool) (rounding : Rounding) (q : ℕ)
    → value < 2 ^ 1024
    → (rounded value denominator negative rounding ≡ ok q)
      ↔ ((0 < denominator) × IsRounded rounding negative value denominator q)
unfolding rounded
rounded_iff value d negative mode q bounded =
    let divided = λ (positive : 0 < d).
      divided_iff mode negative value d (value % d) (value / d) q bounded
        (sym (div-add-mod' value d)) (mod-lt value positive) in
    (
      λ h.
          let (nonzero, answered) = (reject_if_iff (d == 0) division_by_zero _ q).0 h in
          let positive : 0 < d = ground arith in (positive, (divided positive).0 answered),
      λ (positive, h).
          (reject_if_iff (d == 0) division_by_zero _ q).1 (ground arith, (divided positive).1 h),
    )
