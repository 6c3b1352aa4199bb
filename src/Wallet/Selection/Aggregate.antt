-- ===== src/Wallet/Selection/Aggregate.antt =====
-- Threshold aggregation (selection/aggregation.rs).
-- A position in `ordered` is a number, and the loops are given the coins from their position on. A
-- read past the end of `ordered`, where the program panics, has no result: `index_panic`. U256
-- sums and differences without a check keep their wrap.
pub mod Ranges
pub mod Funding
pub mod Ordered
pub mod Consolidation
pub mod Built
pub mod Sound
use quai_rust_sdk.Prelude.{
  ℕ, suc, ◌+◌, ◌-◌, ◌*◌, ◌%◌, ◌^◌, Bool, true, false, not, ◌||◌, ◌&&◌, List, [], ◌∷◌, ◌++◌, leb,
  ltb, ◌==◌, length, flatten, Result, ok, err, ◌>>=◌, ◌>>◌, reject_if, ok_or, if◌then◌else◌,
}
use quai_rust_sdk.Consensus.Denomination.{Denomination, value}
use quai_rust_sdk.Wallet.Selection.Types.{
  OutPoint, CandidateCoin, SelectionRequest, CoinSelection, SelectionError, invalid_request,
  invalid_coin, overflow, insufficient_funds, limit_exceeded, checked_add,
}
use quai_rust_sdk.Wallet.Selection.Denominate.{is_empty}
use quai_rust_sdk.Wallet.Selection.Divide.{by_division}
use quai_rust_sdk.Wallet.Selection.Bucket.{
  is_bad_coin, is_eligible, in_1_to_4096, Buckets, no_buckets, push_coin,
}
use quai_rust_sdk.Wallet.Selection.Choose.{max_transaction_messages}

pub record AggregationPolicy : Type 0 where
  pub maximum_input : Denomination
  pub maximum_output : Denomination
  pub require_reduction : Bool

abbrev pub default_policy : AggregationPolicy
default_policy = record {
  maximum_input = record { index = 6 };
  maximum_output = record { index = 14 };
  require_reduction = true;
}

-- `a + b` and `a - b` on a U256.
abbrev pub wrapping_add : ℕ → ℕ → ℕ
wrapping_add a b = (a + b) % 2 ^ 256

abbrev pub wrapping_sub : ℕ → ℕ → ℕ
wrapping_sub a b = (a + 2 ^ 256 - b) % 2 ^ 256

-- The checks that open `select_sweep` and `select_aggregate`.
unfoldable pub validate_sweep : SelectionRequest → Result SelectionError (Unit {0})
validate_sweep request =
    reject_if
      (not (request.target == 0)
        || (ltb request.max_fee request.fee
            || (not (in_1_to_4096 request.max_inputs) || not (in_1_to_4096 request.max_outputs))))
      invalid_request

-- The state of the loop over the snapshot.
pub record Ranked : Type 0 where
  pub buckets : Buckets
  pub total : ℕ
  pub small_value : ℕ

abbrev pub is_small : AggregationPolicy → CandidateCoin → Bool
is_small policy coin = leb coin.denomination.index policy.maximum_input.index

-- The body of the loop for an eligible coin.
unfoldable pub rank_coin : AggregationPolicy → CandidateCoin → Ranked → Result SelectionError Ranked
unfolding push_coin
rank_coin policy coin r = do
  total' ← ok_or (checked_add 256 r.total (value coin.denomination)) overflow
  small' ←
      if is_small policy coin
      then ok_or (checked_add 256 r.small_value (value coin.denomination)) overflow
      else ok r.small_value
  ok (record { buckets = push_coin coin r.buckets; total = total'; small_value = small' })

unfoldable pub rank_loop :
    SelectionRequest
    → AggregationPolicy
    → List CandidateCoin
    → List OutPoint
    → Ranked
    → Result SelectionError Ranked
unfolding rank_coin is_bad_coin is_eligible
rank_loop request policy [] seen r = ok r
rank_loop request policy (coin ∷ coins) seen r = do
  reject_if (is_bad_coin seen coin) invalid_coin
  r' ← if is_eligible request coin then rank_coin policy coin r else ok r
  rank_loop request policy coins (coin.outpoint ∷ seen) r'

-- An answer, or a read past the end of a slice.
pub data Run {ℓ} (A : Type ℓ) : Type ℓ where
  done : A → Run A
  index_panic : Run A

-- `while aggregate_value < wanted`, at position `end`.
unfoldable pub grow : ℕ → ℕ → ℕ → List CandidateCoin → Run (ℕ × ℕ)
grow wanted end v [] = if leb wanted v then done (end, v) else index_panic
grow wanted end v (coin ∷ coins) =
    if leb wanted v
    then done (end, v)
    else grow wanted (suc end) (wrapping_add v (value coin.denomination)) coins

-- `while total - aggregate_value < fee`, at position `start`.
unfoldable pub shrink : ℕ → ℕ → ℕ → ℕ → List CandidateCoin → Run (ℕ × ℕ)
shrink fee total start v [] =
    if leb fee (wrapping_sub total v) then done (start, v) else index_panic
shrink fee total start v (coin ∷ coins) =
    if leb fee (wrapping_sub total v)
    then done (start, v)
    else shrink fee total (suc start) (wrapping_sub v (value coin.denomination)) coins

abbrev pub in_range : ℕ → ℕ → ℕ → Bool
in_range start end i = leb start i && ltb i end

-- The loop that funds the fee from outside the range, at position `i`; `room` is
-- `request.max_inputs - inputs.len()`.
unfoldable pub fund :
    ℕ → ℕ → ℕ → ℕ → ℕ → ℕ → List CandidateCoin → Result SelectionError (List CandidateCoin × ℕ)
fund fee start end i room v [] = ok ([], v)
fund fee start end i room v (coin ∷ coins) = elim (leb fee v) [
  | true ↦ ok ([], v)
  | false ↦ elim (in_range start end i) [
    | true ↦ fund fee start end (suc i) room v coins
    | false ↦ do
      reject_if (room == 0) limit_exceeded
      (inputs, final) ←
          fund fee start end (suc i) (room - 1) (wrapping_add v (value coin.denomination)) coins
      ok (coin ∷ inputs, final)
  ]
]

-- `ordered[start..end]`: the coins whose position, counted from `i`, is in the range.
unfoldable pub slice : ℕ → ℕ → ℕ → List CandidateCoin → List CandidateCoin
slice start end i [] = []
slice start end i (coin ∷ coins) =
    if in_range start end i
    then coin ∷ slice start end (suc i) coins
    else slice start end (suc i) coins

-- From the range on: fee inputs, then aggregated inputs; their outputs, then the refund.
unfoldable pub build_aggregate :
    SelectionRequest
    → AggregationPolicy
    → List CandidateCoin
    → ℕ
    → ℕ
    → ℕ
    → Result SelectionError CoinSelection
unfolding fund slice by_division
build_aggregate request policy ordered start end aggregate_value = do
  (funding, fee_value) ← fund request.fee start end 0 request.max_inputs 0 ordered
  reject_if (ltb fee_value request.fee) insufficient_funds
  reject_if (ltb (request.max_inputs - length funding) (end - start)) limit_exceeded
  let inputs = funding ++ slice start end 0 ordered
  first ← by_division (suc policy.maximum_output.index) request.max_outputs aggregate_value
  refund ←
      by_division (suc policy.maximum_output.index) (request.max_outputs - length first)
        (fee_value - request.fee)
  let outputs = first ++ refund
  reject_if (is_empty outputs || (policy.require_reduction && leb (length inputs) (length outputs)))
      invalid_request
  reject_if (ltb max_transaction_messages (length inputs * 3 + length outputs + 3)) limit_exceeded
  ok (record {
    inputs = inputs;
    spend_outputs = outputs;
    change_outputs = [];
    input_value = wrapping_add aggregate_value fee_value;
    fee = request.fee;
  })

-- `small_value - request.fee.saturating_sub(large_value)`, with `large_value` as computed before.
abbrev pub wanted : SelectionRequest → Ranked → ℕ
wanted request r = wrapping_sub r.small_value (request.fee - wrapping_sub r.total r.small_value)

-- The loop over the snapshot behind its checks.
unfoldable pub rank :
    List CandidateCoin → SelectionRequest → AggregationPolicy → Result SelectionError Ranked
unfolding validate_sweep rank_loop
rank coins request policy = do
  validate_sweep request
  reject_if (ltb 100000 (length coins)) limit_exceeded
  r ←
      rank_loop request policy coins []
        (record { buckets = no_buckets; total = 0; small_value = 0 })
  reject_if (leb r.total request.fee || r.small_value == 0) insufficient_funds
  ok r

-- The two loops that settle the range, and what is built on it.
unfoldable pub shrink_and_build :
    SelectionRequest
    → AggregationPolicy
    → ℕ
    → List CandidateCoin
    → Run (ℕ × ℕ)
    → Run (Result SelectionError CoinSelection)
unfolding shrink build_aggregate
shrink_and_build request policy total ordered index_panic = index_panic
shrink_and_build request policy total ordered (done (end, v)) =
    elim (shrink request.fee total 0 v ordered) [
      | index_panic ↦ index_panic
      | done (start, v') ↦ done (build_aggregate request policy ordered start end v')
    ]

unfoldable pub select_ranked :
    SelectionRequest
    → AggregationPolicy
    → Result SelectionError Ranked
    → Run (Result SelectionError CoinSelection)
unfolding grow shrink_and_build
select_ranked request policy (err e) = done (err e)
select_ranked request policy (ok r) =
    let ordered = flatten r.buckets in
    shrink_and_build request policy r.total ordered (grow (wanted request r) 0 0 ordered)

unfoldable pub select_aggregate :
    List CandidateCoin
    → SelectionRequest
    → AggregationPolicy
    → Run (Result SelectionError CoinSelection)
unfolding rank select_ranked
select_aggregate coins request policy = select_ranked request policy (rank coins request policy)
