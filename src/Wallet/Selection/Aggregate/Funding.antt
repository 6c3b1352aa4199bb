-- ===== src/Wallet/Selection/Aggregate/Funding.antt =====
-- The coins that fund the fee, beside the range of aggregated coins.
use quai_rust_sdk.Prelude.{
  ℕ, suc, ◌+◌, ◌-◌, ◌≤◌, ◌<◌, ◌^◌, ◌≡◌, subst, List, [], ◌∷◌, length, All, arith, leb, Bool-cases,
  inl, inr, true, false, ok, ok-injective, reject_if-ok, >>=-eq-ok, ◌==◌,
}
use quai_rust_sdk.Consensus.Denomination.{value}
use quai_rust_sdk.Wallet.Selection.Types.{OutPoint, CandidateCoin, limit_exceeded}
use quai_rust_sdk.Wallet.Selection.Bucket.Coins.{coins_value, spends}
use quai_rust_sdk.Wallet.Selection.Aggregate.{wrapping_add, in_range, fund, slice}
use quai_rust_sdk.Wallet.Selection.Aggregate.Ranges.{wrapping_add-exact, coins_value-cons, no_value}

-- A range is part of its list.
pub slice-All :
    (P : CandidateCoin → Type 0) (start end i : ℕ) (cs : List CandidateCoin)
    → All P cs
    → All P (slice start end i cs)
unfolding slice
slice-All P start end i [] h = tt
slice-All P start end i (c ∷ cs) h = elim (Bool-cases (in_range start end i)) [
  | inl e ↦ rw e (h.0, slice-All P start end (suc i) cs h.1)
  | inr e ↦ rw e (slice-All P start end (suc i) cs h.1)
]

slice-spends :
    (o : OutPoint) (start end i : ℕ) (cs : List CandidateCoin)
    → spends o (slice start end i cs) ≤ spends o cs
unfolding slice spends
slice-spends o start end i [] = omega arith
slice-spends o start end i (c ∷ cs) = ground (arith, slice-spends o start end (suc i) cs)

slice-value :
    (start end i : ℕ) (cs : List CandidateCoin)
    → coins_value (slice start end i cs) ≤ coins_value cs
unfolding slice
slice-value start end i [] = omega arith
slice-value start end i (c ∷ cs) = elim (Bool-cases (in_range start end i)) [
  | inl e ↦ rw e (
      omega (
        arith,
        slice-value start end (suc i) cs,
        coins_value-cons c cs,
        coins_value-cons c (slice start end (suc i) cs),
      ))
  | inr e ↦ rw e (omega (arith, slice-value start end (suc i) cs, coins_value-cons c cs))
]

-- The coins that fund the fee are outside the range, and are worth what was counted.
pub record IsFunding (start end i room v : ℕ) (cs inputs : List CandidateCoin) (final : ℕ)
    : Type 1 where
  pub sum : final ≡ v + coins_value inputs
  pub within : length inputs ≤ room
  pub apart : (o : OutPoint) → spends o inputs + spends o (slice start end i cs) ≤ spends o cs
  pub apart_value : coins_value inputs + coins_value (slice start end i cs) ≤ coins_value cs
  pub from : (P : CandidateCoin → Type 0) → All P cs → All P inputs

stopped : (start end i room v : ℕ) (cs : List CandidateCoin) → IsFunding start end i room v cs [] v
unfolding spends
stopped start end i room v cs = record {
  sum = omega (arith, no_value);
  within = omega arith;
  apart = λ o. omega (arith, slice-spends o start end i cs);
  apart_value = omega (arith, no_value, slice-value start end i cs);
  from = λ P h. tt;
}

-- The next coin is in the range.
passed :
    (start end i room v : ℕ) (c : CandidateCoin) (cs inputs : List CandidateCoin) (final : ℕ)
    → in_range start end i ≡ true
    → IsFunding start end (suc i) room v cs inputs final
    → IsFunding start end i room v (c ∷ cs) inputs final
unfolding slice spends
passed start end i room v c cs inputs final e f = record {
  sum = f.sum;
  within = f.within;
  apart = λ o. rw e (omega (arith, f.apart o));
  apart_value = rw e (
      omega (
        arith,
        f.apart_value,
        coins_value-cons c cs,
        coins_value-cons c (slice start end (suc i) cs),
      ));
  from = λ P h. f.from P h.1;
}

-- The next coin funds the fee.
funded :
    (start end i room v v' : ℕ) (c : CandidateCoin) (cs inputs : List CandidateCoin) (final : ℕ)
    → in_range start end i ≡ false
    → 0 < room
    → v' ≡ v + value c.denomination
    → IsFunding start end (suc i) (room - 1) v' cs inputs final
    → IsFunding start end i room v (c ∷ cs) (c ∷ inputs) final
unfolding slice spends
funded start end i room v v' c cs inputs final e some sum f = record {
  sum = omega (arith, f.sum, coins_value-cons c inputs);
  within = omega (arith, f.within);
  apart = λ o. rw e (omega (arith, f.apart o));
  apart_value =
      rw e (omega (arith, f.apart_value, coins_value-cons c cs, coins_value-cons c inputs));
  from = λ P h. (h.0, f.from P h.1);
}

pub fund_lem :
    (fee start end i room v : ℕ) (cs : List CandidateCoin) {p : List CandidateCoin × ℕ}
    → v + coins_value cs < 2 ^ 256
    → fund fee start end i room v cs ≡ ok p
    → IsFunding start end i room v cs p.0 p.1
unfolding fund
fund_lem fee start end i room v [] {p} bound h =
    subst (λ p. IsFunding start end i room v [] p.0 p.1) {x = ([], v)} {y = p} (ok-injective h)
      (stopped start end i room v [])
fund_lem fee start end i room v (c ∷ cs) {p} bound h = elim (Bool-cases (leb fee v)) [
  | inl e ↦
      subst (λ p. IsFunding start end i room v (c ∷ cs) p.0 p.1) {x = ([], v)} {y = p}
        (ok-injective (rw (e, fund) at h)) (stopped start end i room v (c ∷ cs))
  | inr e ↦ elim (Bool-cases (in_range start end i)) [
    | inl inside ↦ passed start end i room v c cs p.0 p.1 inside (
        fund_lem fee start end (suc i) room v cs {p = p} (omega (arith, coins_value-cons c cs))
          (rw (e, inside, fund) at h))
    | inr outside ↦
        let (some, h₁) = reject_if-ok (room == 0) limit_exceeded _ (rw (e, outside, fund) at h) in
        let (q, funding, h₂) =
          >>=-eq-ok
            (fund fee start end (suc i) (room - 1) (wrapping_add v (value c.denomination)) cs) _
            h₁ in
        let sum =
          wrapping_add-exact v (value c.denomination) (omega (arith, coins_value-cons c cs)) in
        subst (λ p. IsFunding start end i room v (c ∷ cs) p.0 p.1) {x = (c ∷ q.0, q.1)} {y = p}
          (ok-injective h₂)
          (funded start end i room v (wrapping_add v (value c.denomination)) c cs q.0 q.1 outside
            (ground arith) sum
            (fund_lem fee start end (suc i) (room - 1) (wrapping_add v (value c.denomination)) cs
              {p = q} (omega (arith, coins_value-cons c cs)) funding))
  ]
]
