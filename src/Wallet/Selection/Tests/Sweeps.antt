-- ===== src/Wallet/Selection/Tests/Sweeps.antt =====
-- Runs of sweeping and aggregation on small snapshots.
use quai_rust_sdk.Prelude.{
  ℕ, suc, ◌≡◌, ◌≢◌, ◌<◌, refl, List, [], ◌∷◌, map, length, All, arith, ok, err, true, flatten,
}
use quai_rust_sdk.Primitives.Shard.{cyprus1, byte}
use quai_rust_sdk.Wallet.Selection.Types.{
  CandidateCoin, SelectionRequest, CoinSelection, invalid_request,
}
use quai_rust_sdk.Wallet.Selection.Denominate.{
  denominate_available, denominate_largest, take_levels, take_units, source_for, split_down,
  preserves_denominations,
}
use quai_rust_sdk.Wallet.Selection.Divide.{by_division, by_division-eq-largest}
use quai_rust_sdk.Wallet.Selection.Bucket.Coins.{denominations}
use quai_rust_sdk.Wallet.Selection.Choose.Sound.{IsValidCoin}
use quai_rust_sdk.Wallet.Selection.Aggregate.{
  AggregationPolicy, done, index_panic, select_aggregate,
}
use quai_rust_sdk.Wallet.Selection.Aggregate.Consolidation.{IsAggregate}
use quai_rust_sdk.Wallet.Selection.Aggregate.Sound.{
  select_aggregate_total, select_aggregate-IsAggregate,
}
use quai_rust_sdk.Wallet.Selection.Sweep.{
  preserve_denominations, aggregate, aggregate_threshold, select_sweep,
}
use quai_rust_sdk.Wallet.Selection.Sweep.Sound.{
  IsSweep, select_sweep-preserves, select_sweep-aggregates,
}
use quai_rust_sdk.Wallet.Selection.Tests.{coin, indexed}

abbrev sweep_request : ℕ → SelectionRequest
sweep_request fee = record {
  zone = cyprus1;
  candidate_height = 10;
  target = 0;
  fee = fee;
  max_fee = 5;
  max_inputs = 12;
  max_outputs = 8;
}

-- Five and ten Qits, less a fee of one, in the denominations at hand.
abbrev two_coins : List CandidateCoin
two_coins = coin 0 1 ∷ coin 1 2 ∷ []

abbrev two_swept : CoinSelection
two_swept = record {
  inputs = two_coins;
  spend_outputs = indexed (2 ∷ 0 ∷ 0 ∷ 0 ∷ 0 ∷ []);
  change_outputs = [];
  input_value = 15;
  fee = 1;
}

sweeps_two : select_sweep two_coins (sweep_request 1) preserve_denominations ≡ done (ok two_swept)
unfolding select_sweep byte denominate_available take_levels take_units source_for split_down
sweeps_two = refl

-- Ten coins of one Qit become one of ten.
abbrev ten_coins : List CandidateCoin
ten_coins = map (λ i. coin i 0) (0 ∷ 1 ∷ 2 ∷ 3 ∷ 4 ∷ 5 ∷ 6 ∷ 7 ∷ 8 ∷ 9 ∷ [])

abbrev ten_swept : CoinSelection
ten_swept = record {
  inputs = ten_coins;
  spend_outputs = indexed (2 ∷ []);
  change_outputs = [];
  input_value = 10;
  fee = 0;
}

sweeps_ten :
    select_sweep ten_coins (sweep_request 0) (aggregate (record { index = 3 }))
    ≡ done (ok ten_swept)
unfolding select_sweep byte by_division
sweeps_ten = refl

-- With another coin of ten Qits for the fee, whose refund is one coin of five.
abbrev policy : AggregationPolicy
policy = record {
  maximum_input = record { index = 1 };
  maximum_output = record { index = 3 };
  require_reduction = true;
}

abbrev eleven_coins : List CandidateCoin
eleven_coins = coin 10 2 ∷ ten_coins

abbrev eleven_merged : CoinSelection
eleven_merged = record {
  inputs = eleven_coins;
  spend_outputs = indexed (2 ∷ 1 ∷ []);
  change_outputs = [];
  input_value = 20;
  fee = 5;
}

merges_eleven : select_aggregate eleven_coins (sweep_request 5) policy ≡ done (ok eleven_merged)
unfolding select_aggregate byte flatten by_division
merges_eleven = refl

-- One of two coins of five Qits pays the fee, and its refund makes more coins than there were.
no_gain :
    select_sweep (coin 0 1 ∷ coin 1 1 ∷ []) (sweep_request 1) (aggregate_threshold policy)
    ≡ done (err invalid_request)
unfolding select_sweep byte flatten by_division
no_gain = refl

by_division-eq-largest_example : by_division 15 4 35 ≡ denominate_largest 35 4
by_division-eq-largest_example = by_division-eq-largest 35 4

eleven_valid : All IsValidCoin eleven_coins
eleven_valid = omega arith

select_sweep-preserves_example :
    IsSweep two_coins (sweep_request 1) two_swept
    × (preserves_denominations (denominations two_swept.inputs) two_swept.spend_outputs ≡ ok tt)
select_sweep-preserves_example =
    select_sweep-preserves two_coins (sweep_request 1) {sel = two_swept} (omega arith) sweeps_two

select_sweep-aggregates_example :
    IsSweep ten_coins (sweep_request 0) ten_swept
    × (length ten_swept.spend_outputs < length ten_swept.inputs)
    × All (λ d. d.index < suc 3) ten_swept.spend_outputs
select_sweep-aggregates_example =
    select_sweep-aggregates ten_coins (sweep_request 0) (record { index = 3 }) {sel = ten_swept}
      (omega arith) sweeps_ten

select_aggregate_total_example :
    select_aggregate eleven_coins (sweep_request 5) policy ≢ index_panic
select_aggregate_total_example =
    select_aggregate_total eleven_coins (sweep_request 5) policy eleven_valid

select_aggregate-IsAggregate_example :
    IsAggregate eleven_coins (sweep_request 5) policy eleven_merged
select_aggregate-IsAggregate_example =
    select_aggregate-IsAggregate eleven_coins (sweep_request 5) policy {sel = eleven_merged}
      eleven_valid (omega arith) merges_eleven
