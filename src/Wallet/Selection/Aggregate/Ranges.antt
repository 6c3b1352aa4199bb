-- ===== src/Wallet/Selection/Aggregate/Ranges.antt =====
-- The range of aggregated coins, the two loops that settle it, and the coins outside it.
use quai_rust_sdk.Prelude.{
  ℕ, suc, ◌+◌, ◌-◌, ◌≤◌, ◌<◌, ◌^◌, ◌≡◌, refl, ◌∙◌, List, [], ◌∷◌, length, arith, leb, Bool-cases,
  leb→le, le→leb, not_leb→lt, inl, inr, true,
}
use native.Mathlib.Decide.{dec_lt}
use quai_rust_sdk.Consensus.Denomination.{value}
use quai_rust_sdk.Wallet.Selection.Types.{CandidateCoin}
use quai_rust_sdk.Wallet.Selection.Denominate.Worth.{tally, weight_self}
use quai_rust_sdk.Wallet.Selection.Bucket.Coins.{coins_value}
use quai_rust_sdk.Wallet.Selection.Aggregate.{
  wrapping_add, wrapping_sub, done, grow, shrink, in_range, slice,
}

pub wrapping_add-exact : (a b : ℕ) → a + b < 2 ^ 256 → wrapping_add a b ≡ a + b
wrapping_add-exact a b h = omega arith

pub wrapping_sub-exact : (a b : ℕ) → b ≤ a → a < 2 ^ 256 → wrapping_sub a b ≡ a - b
wrapping_sub-exact a b h bound = omega arith

pub coins_value-cons :
    (c : CandidateCoin) (cs : List CandidateCoin)
    → coins_value (c ∷ cs) ≡ value c.denomination + coins_value cs
unfolding tally
coins_value-cons c cs = omega (arith, weight_self 0 c.denomination.index (omega arith))

pub no_value : coins_value [] ≡ 0
unfolding tally
no_value = refl

-- A range is no longer than its bounds allow.
pub length-slice :
    (start end i : ℕ) (cs : List CandidateCoin)
    → (length (slice start end i cs) ≤ end - start) × (length (slice start end i cs) ≤ end - i)
unfolding slice
length-slice start end i [] = (omega arith, omega arith)
length-slice start end i (c ∷ cs) = elim (Bool-cases (in_range start end i)) [
  | inl e ↦ rw e (let (a, b) = length-slice start end (suc i) cs in (ground arith, ground arith))
  | inr e ↦ rw e (let (a, b) = length-slice start end (suc i) cs in (ground arith, ground arith))
]

-- Positions at or behind the end are outside.
slice_behind : (start end i : ℕ) (cs : List CandidateCoin) → end ≤ i → slice start end i cs ≡ []
unfolding slice
slice_behind start end i [] h = refl
slice_behind start end i (c ∷ cs) h = ground (arith, slice_behind start end (suc i) cs)

-- A start before the position does not matter.
slice_start :
    (start end i : ℕ) (cs : List CandidateCoin)
    → start < i
    → slice start end i cs ≡ slice (suc start) end i cs
unfolding slice
slice_start start end i [] h = refl
slice_start start end i (c ∷ cs) h = ground (arith, slice_start start end (suc i) cs)

-- One more coin in front of a range.
slice-cons :
    (start end i : ℕ) (c : CandidateCoin) (cs : List CandidateCoin)
    → start ≤ i
    → i < end
    → slice start end i (c ∷ cs) ≡ c ∷ slice start end (suc i) cs
unfolding slice
slice-cons start end i c cs h k = ground arith

slice_skip :
    (start end i : ℕ) (c : CandidateCoin) (cs : List CandidateCoin)
    → i < start
    → slice start end i (c ∷ cs) ≡ slice start end (suc i) cs
unfolding slice
slice_skip start end i c cs h = ground arith

empty_value : (start end i : ℕ) → coins_value (slice start end i []) ≡ 0
unfolding slice tally
empty_value start end i = refl

-- The first loop stops in the list, at a range that is worth what it counted, if the list is worth
-- enough.
pub grow_lem :
    (wanted i v : ℕ) (cs : List CandidateCoin)
    → wanted ≤ v + coins_value cs
    → v + coins_value cs < 2 ^ 256
    → (end : ℕ) × (v' : ℕ) × (grow wanted i v cs ≡ done (end, v'))
      × (i ≤ end)
      × (v' ≡ v + coins_value (slice 0 end i cs))
      × (v' ≤ v + coins_value cs)
unfolding grow
grow_lem wanted i v [] enough bound =
    (i, v, rw reached refl, omega arith, unfold slice tally in omega arith, omega arith)
  where
    reached : leb wanted v ≡ true
    reached = le→leb wanted v (omega (arith, no_value))
grow_lem wanted i v (c ∷ cs) enough bound = elim (Bool-cases (leb wanted v)) [
  | inl e ↦ (
    i,
    v,
    rw e refl,
    omega arith,
    rw (slice_behind 0 i i (c ∷ cs) (omega arith)) nothing,
    omega arith,
  )
  | inr e ↦
      let sum : wrapping_add v (value c.denomination) ≡ v + value c.denomination =
        wrapping_add-exact v (value c.denomination) (omega (arith, coins_value-cons c cs)) in
      let (end, v', eq, le, worth_of, top) =
        grow_lem wanted (suc i) (wrapping_add v (value c.denomination)) cs
          (omega (arith, coins_value-cons c cs)) (omega (arith, coins_value-cons c cs)) in
      (
        end,
        v',
        rw e eq,
        omega arith,
        rw (slice-cons 0 end i c cs (omega arith) (omega arith))
            (omega (arith, coins_value-cons c (slice 0 end (suc i) cs))),
        omega (arith, coins_value-cons c cs),
      )
]
  where
    nothing : v ≡ v + coins_value []
    nothing = unfold tally in omega arith

slice_start_far :
    (start start' end i : ℕ) (cs : List CandidateCoin)
    → start < i
    → start' ≤ i
    → slice start end i cs ≡ slice start' end i cs
unfolding slice
slice_start_far start start' end i [] h k = refl
slice_start_far start start' end i (c ∷ cs) h k =
    ground (arith, slice_start_far start start' end (suc i) cs)

-- The second loop stops in the range, at a range that is worth what it counted, if the total
-- exceeds the fee.
pub shrink_lem :
    (fee total start end v : ℕ) (cs : List CandidateCoin)
    → fee < total
    → total < 2 ^ 256
    → v ≤ total
    → start ≤ end
    → v ≡ coins_value (slice start end start cs)
    → (start' : ℕ) × (v' : ℕ) × (shrink fee total start v cs ≡ done (start', v'))
      × (start ≤ start')
      × (start' ≤ end)
      × (v' ≡ coins_value (slice start' end start cs))
      × (v' + fee ≤ total)
unfolding shrink
shrink_lem fee total start end v [] more bound small le count =
    (start, v, rw reached refl, omega arith, le, count, omega (arith, empty_value start end start))
  where
    reached : leb fee (wrapping_sub total v) ≡ true
    reached = le→leb fee _ (omega (arith, empty_value start end start))
shrink_lem fee total start end v (c ∷ cs) more bound small le count =
    elim (Bool-cases (leb fee (wrapping_sub total v))) [
      | inl e ↦ (
        start,
        v,
        rw e refl,
        omega arith,
        le,
        count,
        omega (arith, leb→le _ _ e, wrapping_sub-exact total v small bound),
      )
      | inr e ↦
          let covered = not_leb→lt fee (wrapping_sub total v) e in
          let inside = unfinished (omega (arith, wrapping_sub-exact total v small bound)) in
          let split = first_of inside in
          let v-eq = wrapping_sub-exact v (value c.denomination) (omega arith) (omega arith) in
          let (start', v', eq, le', within, count', fee_left) =
            shrink_lem fee total (suc start) end (wrapping_sub v (value c.denomination)) cs more
              bound (omega arith) (omega arith) (omega arith) in
          (
            start',
            v',
            rw e eq,
            omega arith,
            within,
            rw (slice_skip start' end start c cs (omega arith)) count',
            fee_left,
          )
    ]
  where
    unfinished : 0 < v → start < end
    unfinished positive = elim (dec_lt start end) [
      | yes inside ↦ inside
      | no outside ↦ absurd (omega (arith, nothing (omega arith)))
    ]
      where
        nothing : end ≤ start → coins_value (slice start end start (c ∷ cs)) ≡ 0
        nothing h = rw (slice_behind start end start (c ∷ cs) h) (unfold tally in refl)

    first_of :
        start < end → v ≡ value c.denomination + coins_value (slice (suc start) end (suc start) cs)
    first_of inside =
        count
        ∙ (rw
            (
              slice-cons start end start c cs (omega arith) inside,
              slice_start_far start (suc start) end (suc start) cs (omega arith) (omega arith),
            )
            (coins_value-cons c (slice (suc start) end (suc start) cs)))
