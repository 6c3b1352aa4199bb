-- ===== src/Wallet/Selection/Aggregate/Sound.antt =====
-- What threshold aggregation guarantees (selection/aggregation.rs).
use quai_rust_sdk.Prelude.{
  ℕ, ◌-◌, ◌≤◌, ◌<◌, ◌≡◌, ◌≢◌, refl, sym, ◌∙◌, ◌⊎◌, List, flatten, All, arith, ok, err, Result,
  Result-cases, inl, inr,
}
use quai_rust_sdk.Consensus.Denomination.{IsDenomination}
use quai_rust_sdk.Wallet.Selection.Types.{
  CandidateCoin, SelectionRequest, CoinSelection, SelectionError,
}
use quai_rust_sdk.Wallet.Selection.Bucket.Coins.{coins_value}
use quai_rust_sdk.Wallet.Selection.Choose.Sound.{IsValidCoin}
use quai_rust_sdk.Wallet.Selection.Aggregate.{
  AggregationPolicy, Ranked, Run, done, index_panic, wrapping_sub, wanted, grow, shrink, slice,
  build_aggregate, rank, shrink_and_build, select_ranked, select_aggregate,
}
use quai_rust_sdk.Wallet.Selection.Aggregate.Ranges.{wrapping_sub-exact, grow_lem, shrink_lem}
use quai_rust_sdk.Wallet.Selection.Aggregate.Ordered.{IsRanked, rank_lem}
use quai_rust_sdk.Wallet.Selection.Aggregate.Consolidation.{IsAggregate}
use quai_rust_sdk.Wallet.Selection.Aggregate.Built.{build_lem, built-IsAggregate}

-- The two loops settle on a range of the ordered coins, worth what they counted, that leaves the fee.
range_lem :
    (request : SelectionRequest) (r : Ranked)
    → IsRanked r
    → request.fee < r.total
    → (end : ℕ) × (first : ℕ) × (start : ℕ) × (v : ℕ) × (grow
          (wanted request r)
          0
          0
          (flatten r.buckets)
        ≡ done (end, first))
      × (shrink request.fee r.total 0 first (flatten r.buckets) ≡ done (start, v))
      × (start ≤ end)
      × (v ≡ coins_value (slice start end 0 (flatten r.buckets)))
range_lem request r ranked more =
    let (end, first, growing, _, worth_of, top) =
      grow_lem (wanted request r) 0 0 (flatten r.buckets) (omega (arith, wanted_lem, ranked.sum))
        (omega (arith, ranked.sum, ranked.bound)) in
    let (start, v, shrinking, _, within, count, _) =
      shrink_lem request.fee r.total 0 end first (flatten r.buckets) more ranked.bound
        (omega (arith, ranked.sum)) (omega arith) (omega arith) in
    (end, first, start, v, growing, shrinking, within, count)
  where
    wanted_lem : wanted request r ≤ r.total
    wanted_lem = omega (
      arith,
      wrapping_sub-exact r.total r.small_value ranked.part ranked.bound,
      wrapping_sub-exact r.small_value (request.fee - wrapping_sub r.total r.small_value)
          (omega (arith, wrapping_sub-exact r.total r.small_value ranked.part ranked.bound))
          (omega arith),
    )

-- A run gets to the outputs unless it fails before the loops.
run_lem :
    (coins : List CandidateCoin) (request : SelectionRequest) (policy : AggregationPolicy)
    → All IsValidCoin coins
    → ((e : SelectionError) × (select_aggregate coins request policy ≡ done (err e)))
      ⊎ ((r : Ranked) × (end : ℕ) × (start : ℕ) × (v : ℕ) × (rank coins request policy ≡ ok r)
          × (select_aggregate coins request policy
              ≡ done (build_aggregate request policy (flatten r.buckets) start end v))
          × (start ≤ end)
          × (v ≡ coins_value (slice start end 0 (flatten r.buckets))))
unfolding select_aggregate select_ranked shrink_and_build
run_lem coins request policy valid = elim (Result-cases (rank coins request policy)) [
  | inl (r, ranking) ↦
      let (_, _, ranked, more, _) = rank_lem coins request policy {r = r} valid ranking in
      let (end, first, start, v, growing, shrinking, within, count) =
        range_lem request r ranked more in
      inr (
        r,
        end,
        start,
        v,
        ranking,
        rw ranking (rw growing (rw (shrinking, shrink_and_build) refl)),
        within,
        count,
      )
  | inr (e, failing) ↦ inl (e, rw failing refl)
]

-- On a snapshot of valid denominations, aggregation never reads past the end of the ordered coins.
pub select_aggregate_total :
    (coins : List CandidateCoin) (request : SelectionRequest) (policy : AggregationPolicy)
    → All IsValidCoin coins
    → select_aggregate coins request policy ≢ index_panic
select_aggregate_total coins request policy valid panics =
    elim (run_lem coins request policy valid) [
      | inl (e, run) ↦ cc
      | inr (r, end, start, v, _, run, _, _) ↦ cc
    ]

-- From a snapshot and a policy of valid denominations, a successful aggregation spends eligible coins of the snapshot, each outpoint at most once, and
-- its outputs are worth its inputs less the fee; it is within the limits and the approved budget, in
-- denominations up to the policy's, and in fewer coins where the policy requires that.
pub select_aggregate-IsAggregate :
    (coins : List CandidateCoin) (request : SelectionRequest) (policy : AggregationPolicy)
    {sel : CoinSelection}
    → All IsValidCoin coins
    → IsDenomination policy.maximum_output
    → select_aggregate coins request policy ≡ done (ok sel)
    → IsAggregate coins request policy sel
select_aggregate-IsAggregate coins request policy {sel} valid allowed h =
    elim (run_lem coins request policy valid) [
      | inl (e, run) ↦ cc
      | inr (r, end, start, v, ranking, run, le, count) ↦
          built-IsAggregate coins request policy valid allowed r start end v ranking le count
            {sel = sel}
            (build_lem request policy (flatten r.buckets) start end v {sel = sel}
              (done_injective (sym run ∙ h)))
    ]
  where
    done_injective :
        {x y : Result SelectionError CoinSelection}
        → ◌≡◌ {A = Run (Result SelectionError CoinSelection)} (done x) (done y)
        → x ≡ y
    done_injective e = cc
