-- ===== src/Wallet/Selection/Aggregate/Ordered.antt =====
-- The loop over the snapshot fills the same buckets as `validate_and_bucket`, and its totals are
-- theirs.
use quai_rust_sdk.Prelude.{
  ℕ, ◌+◌, ◌≤◌, ◌<◌, ◌^◌, ◌≡◌, refl, ap, subst, sym, ◌>>◌, List, [], ◌∷◌, flatten, length, All,
  arith, leb, ltb, ◌||◌, ◌==◌, Bool-cases, inl, inr, true, false, ok, ok-injective, reject_if-ok,
  >>=-eq-ok, ok_or-ok, if◌then◌else◌, reject_if, ok_or,
}
use quai_rust_sdk.Consensus.Denomination.{value}
use quai_rust_sdk.Wallet.Selection.Types.{
  OutPoint, CandidateCoin, SelectionRequest, invalid_coin, limit_exceeded, insufficient_funds,
  overflow, checked_add, checked_add-some,
}
use quai_rust_sdk.Wallet.Selection.Denominate.Worth.{tally}
use quai_rust_sdk.Wallet.Selection.Bucket.{
  is_bad_coin, is_eligible, no_buckets, push_coin, bucket_loop, validate_and_bucket,
}
use quai_rust_sdk.Wallet.Selection.Bucket.Coins.{coins_value}
use quai_rust_sdk.Wallet.Selection.Bucket.Keeps.{step_buckets, step_size, step_value}
use quai_rust_sdk.Wallet.Selection.Choose.Sound.{IsValidCoin}
use quai_rust_sdk.Wallet.Selection.Aggregate.{
  AggregationPolicy, Ranked, is_small, rank_coin, rank_loop, rank, validate_sweep,
}

pub record IsRanked (r : Ranked) : Type 0 where
  pub size : length r.buckets ≡ 15
  pub sum : r.total ≡ coins_value (flatten r.buckets)
  pub bound : r.total < 2 ^ 256
  pub part : r.small_value ≤ r.total

rank_coin_lem :
    (policy : AggregationPolicy) (c : CandidateCoin) (r : Ranked) {out : Ranked}
    → r.small_value ≤ r.total
    → rank_coin policy c r ≡ ok out
    → (out.buckets ≡ push_coin c r.buckets)
      × (out.total ≡ r.total + value c.denomination)
      × (out.total < 2 ^ 256)
      × (out.small_value ≤ out.total)
unfolding rank_coin
rank_coin_lem policy c r {out} part h =
    let (total, adding, h₁) =
      ok_or-ok (checked_add 256 r.total (value c.denomination)) overflow _ h in
    let (exact, bound) = checked_add-some 256 r.total (value c.denomination) adding in
    let (small, smaller, h₂) =
      >>=-eq-ok
        (if is_small policy c
          then ok_or (checked_add 256 r.small_value (value c.denomination)) overflow
          else ok r.small_value)
        _ h₁ in
    subst
      (λ out.
        (out.buckets ≡ push_coin c r.buckets)
        × (out.total ≡ r.total + value c.denomination)
        × (out.total < 2 ^ 256)
        × (out.small_value ≤ out.total))
      {x = record { buckets = push_coin c r.buckets; total = total; small_value = small }} {y = out}
      (ok-injective h₂) (refl, exact, omega arith, omega (arith, exact, smaller_part small smaller))
  where
    smaller_part :
        (small : ℕ)
        → (if is_small policy c
            then ok_or (checked_add 256 r.small_value (value c.denomination)) overflow
            else ok r.small_value)
          ≡ ok small
        → small ≤ r.small_value + value c.denomination
    smaller_part small e = ground arith

-- The step of the loop.
loop_round :
    (request : SelectionRequest) (policy : AggregationPolicy) (c : CandidateCoin)
    (cs : List CandidateCoin) (seen : List OutPoint) (r : Ranked) {out : Ranked}
    → IsValidCoin c
    → IsRanked r
    → rank_loop request policy (c ∷ cs) seen r ≡ ok out
    → (next : Ranked) × (is_bad_coin seen c ≡ false)
      × IsRanked next
      × (next.buckets ≡ step_buckets request c r.buckets)
      × (rank_loop request policy cs (c.outpoint ∷ seen) next ≡ ok out)
unfolding rank_loop
loop_round request policy c cs seen r {out} valid ranked h =
    let (good, h₁) = reject_if-ok (is_bad_coin seen c) invalid_coin _ h in
    let (next, step, h₂) =
      >>=-eq-ok (if is_eligible request c then rank_coin policy c r else ok r) _ h₁ in
    (next, good, ranked_next next step, buckets_next next step, h₂)
  where
    buckets_next :
        (next : Ranked)
        → (if is_eligible request c then rank_coin policy c r else ok r) ≡ ok next
        → next.buckets ≡ step_buckets request c r.buckets
    buckets_next next step = elim (Bool-cases (is_eligible request c)) [
      | inl e ↦ rw e (rank_coin_lem policy c r {out = next} ranked.part (rw e at step)).0
      | inr e ↦ rw e (ap (λ r. r.buckets) (sym (ok-injective (rw e at step))))
    ]

    gain :
        is_eligible request c ≡ true
        → (if is_eligible request c then value c.denomination else 0) ≡ value c.denomination
    gain e = rw e refl

    ranked_next :
        (next : Ranked)
        → (if is_eligible request c then rank_coin policy c r else ok r) ≡ ok next
        → IsRanked next
    ranked_next next step = elim (Bool-cases (is_eligible request c)) [
      | inl e ↦
          let (same, exact, bound, part) =
            rank_coin_lem policy c r {out = next} ranked.part (rw e at step) in
          record {
            size = rw (buckets_next next step) (step_size request c r.buckets ranked.size);
            sum = rw (buckets_next next step) (
                omega (
                  arith,
                  exact,
                  ranked.sum,
                  step_value request c r.buckets ranked.size valid,
                  gain e,
                ));
            bound = bound;
            part = part;
          }
      | inr e ↦ subst IsRanked (ok-injective (rw e at step)) ranked
    ]

rank_loop_lem :
    (request : SelectionRequest) (policy : AggregationPolicy) (cs : List CandidateCoin)
    (seen : List OutPoint) (r : Ranked) {out : Ranked}
    → All IsValidCoin cs
    → IsRanked r
    → rank_loop request policy cs seen r ≡ ok out
    → (bucket_loop request cs seen r.buckets ≡ ok out.buckets) × IsRanked out
unfolding rank_loop bucket_loop
rank_loop_lem request policy [] seen r {out} valid ranked h =
    (ap (λ r. ok r.buckets) (ok-injective h), subst IsRanked (ok-injective h) ranked)
rank_loop_lem request policy (c ∷ cs) seen r {out} valid ranked h =
    let (next, good, ranked', same, rest) =
      loop_round request policy c cs seen r {out = out} valid.0 ranked h in
    let (loop, done') =
      rank_loop_lem request policy cs (c.outpoint ∷ seen) next {out = out} valid.1 ranked' rest in
    (rw (good, sym same) loop, done')

abbrev start : Ranked
start = record { buckets = no_buckets; total = 0; small_value = 0 }

-- What the loop and its checks leave: the buckets of the snapshot, and totals that leave a value
-- beside the fee.
pub rank_lem :
    (coins : List CandidateCoin) (request : SelectionRequest) (policy : AggregationPolicy)
    {r : Ranked}
    → All IsValidCoin coins
    → rank coins request policy ≡ ok r
    → (validate_sweep request ≡ ok tt)
      × (validate_and_bucket coins request ≡ ok r.buckets)
      × IsRanked r
      × (request.fee < r.total)
      × (0 < r.small_value)
unfolding rank validate_and_bucket
rank_lem coins request policy {r} valid h =
    let (_, checked, h₁) = >>=-eq-ok (validate_sweep request) _ h in
    let (few, h₂) = reject_if-ok (ltb 100000 (length coins)) limit_exceeded _ h₁ in
    let (r', loop, h₃) = >>=-eq-ok (rank_loop request policy coins [] start) _ h₂ in
    let (enough, h₄) =
      reject_if-ok (leb r'.total request.fee || r'.small_value == 0) insufficient_funds _ h₃ in
    let (buckets, ranked) =
      rank_loop_lem request policy coins [] start {out = r'} valid started loop in
    subst
      (λ r.
        (validate_sweep request ≡ ok tt)
        × ((reject_if (ltb 100000 (length coins)) limit_exceeded
              >> bucket_loop request coins [] no_buckets)
            ≡ ok r.buckets)
        × IsRanked r
        × (request.fee < r.total)
        × (0 < r.small_value))
      (ok-injective h₄) (checked, rw few buckets, ranked, ground arith, ground arith)
  where
    started : IsRanked start
    started = record {
      size = refl;
      sum = unfold flatten tally in refl;
      bound = omega arith;
      part = omega arith;
    }
