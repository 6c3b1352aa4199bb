-- ===== src/Wallet/Selection/Aggregate/Consolidation.antt =====
-- What sweeping and aggregation promise, and the checks that open both (selection.rs and
-- selection/aggregation.rs).
use quai_rust_sdk.Prelude.{suc, ◌+◌, ◌*◌, ◌≤◌, ◌<◌, ◌≡◌, List, [], length, All, arith, true, ok}
use quai_rust_sdk.Wallet.Selection.Types.{OutPoint, CandidateCoin, SelectionRequest, CoinSelection}
use quai_rust_sdk.Wallet.Selection.Denominate.Worth.{tally}
use quai_rust_sdk.Wallet.Selection.Bucket.Coins.{coins_value, spends}
use quai_rust_sdk.Wallet.Selection.Choose.{max_transaction_messages}
use quai_rust_sdk.Wallet.Selection.Choose.Fewest.{IsSpendable}
use quai_rust_sdk.Wallet.Selection.Aggregate.{AggregationPolicy, validate_sweep}

-- Coins of the snapshot, each spent once, become outputs that are worth them less the fee.
pub record IsConsolidation (coins : List CandidateCoin) (request : SelectionRequest)
    (sel : CoinSelection) : Type 0 where
  pub spendable : All (IsSpendable coins request) sel.inputs
  pub once : (o : OutPoint) → spends o sel.inputs ≤ 1
  pub total : sel.input_value ≡ coins_value sel.inputs
  pub balance : tally 0 sel.spend_outputs + request.fee ≡ sel.input_value
  pub no_change : sel.change_outputs ≡ []
  pub fee : sel.fee ≡ request.fee
  pub budget : request.fee ≤ request.max_fee
  pub inputs : length sel.inputs ≤ request.max_inputs
  pub outputs : length sel.spend_outputs ≤ request.max_outputs
  pub messages : length sel.inputs * 3 + length sel.spend_outputs + 3 ≤ max_transaction_messages

-- An aggregation does so in fewer coins, where the policy requires it, of the allowed denominations.
pub record IsAggregate (coins : List CandidateCoin) (request : SelectionRequest)
    (policy : AggregationPolicy) (sel : CoinSelection) : Type 0 where
  pub consolidation : IsConsolidation coins request sel
  pub some_output : 0 < length sel.spend_outputs
  pub allowed : All (λ d. d.index < suc policy.maximum_output.index) sel.spend_outputs
  pub reduced : policy.require_reduction ≡ true → length sel.spend_outputs < length sel.inputs

-- What the checks let through.
pub record IsSweepable (request : SelectionRequest) : Type 0 where
  pub budget : request.fee ≤ request.max_fee
  pub some_input : 1 ≤ request.max_inputs
  pub some_output : 1 ≤ request.max_outputs
  pub few_inputs : request.max_inputs ≤ 4096
  pub few_outputs : request.max_outputs ≤ 4096

pub validate_sweep-ok :
    (request : SelectionRequest) → validate_sweep request ≡ ok tt → IsSweepable request
unfolding validate_sweep
validate_sweep-ok request h = ground arith
