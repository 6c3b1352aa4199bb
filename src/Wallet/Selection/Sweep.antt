-- ===== src/Wallet/Selection/Sweep.antt =====
-- Sweeping every eligible coin (selection.rs, `select_sweep`).
-- The loop is given the room `request.max_inputs - inputs.len()` and adds its input in front of
-- those of the later coins.
pub mod Loop
pub mod Sound
use quai_rust_sdk.Prelude.{
  ℕ, suc, ◌+◌, ◌-◌, ◌*◌, Bool, true, false, not, ◌||◌, List, [], ◌∷◌, leb, ltb, ◌==◌, length, set,
  Result, ok, err, ◌>>=◌, ◌>>◌, reject_if, ok_or, if◌then◌else◌,
}
use quai_rust_sdk.Consensus.Denomination.{Denomination, value}
use quai_rust_sdk.Wallet.Selection.Types.{
  OutPoint, CandidateCoin, SelectionRequest, CoinSelection, SelectionError, invalid_request,
  invalid_coin, overflow, insufficient_funds, limit_exceeded, checked_add,
}
use quai_rust_sdk.Wallet.Selection.Denominate.{at, increment, no_capacity, denominate_available}
use quai_rust_sdk.Wallet.Selection.Divide.{by_division}
use quai_rust_sdk.Wallet.Selection.Bucket.{is_bad_coin, is_eligible, in_1_to_4096}
use quai_rust_sdk.Wallet.Selection.Choose.{max_transaction_messages}
use quai_rust_sdk.Wallet.Selection.Aggregate.{
  AggregationPolicy, Run, done, validate_sweep, select_aggregate,
}

pub data SweepMode : Type 0 where
  aggregate_threshold : AggregationPolicy → SweepMode
  preserve_denominations : SweepMode
  aggregate : Denomination → SweepMode

-- The state behind the loop.
pub record Swept : Type 0 where
  pub inputs : List CandidateCoin
  pub capacity : List ℕ
  pub total : ℕ

unfoldable pub sweep_loop :
    SelectionRequest
    → List CandidateCoin
    → List OutPoint
    → ℕ
    → List ℕ
    → ℕ
    → Result SelectionError Swept
unfolding is_bad_coin is_eligible
sweep_loop request [] seen room capacity total =
    ok (record { inputs = []; capacity = capacity; total = total })
sweep_loop request (coin ∷ coins) seen room capacity total = do
  reject_if (is_bad_coin seen coin) invalid_coin
  elim (is_eligible request coin) [
    | false ↦ sweep_loop request coins (coin.outpoint ∷ seen) room capacity total
    | true ↦ do
      reject_if (room == 0) limit_exceeded
      let i = coin.denomination.index
      total' ← ok_or (checked_add 256 total (value coin.denomination)) overflow
      rest ←
          sweep_loop request coins (coin.outpoint ∷ seen) (room - 1)
            (set capacity i (increment (at capacity i))) total'
      ok (record rest { inputs = coin ∷ rest.inputs })
  ]

-- The outputs of the two modes that sweep; the third, `unreachable!` in the source, has none.
abbrev pub Outputs : Type 0
Outputs = Swept → ℕ → Result SelectionError (List Denomination)

unfoldable pub preserved_outputs : SelectionRequest → Outputs
preserved_outputs request swept v = do
  (outputs, _) ← denominate_available v swept.capacity request.max_outputs
  ok outputs

unfoldable pub aggregated_outputs : SelectionRequest → Denomination → Outputs
aggregated_outputs request maximum swept v = do
  outputs ← by_division (suc maximum.index) request.max_outputs v
  reject_if (leb (length swept.inputs) (length outputs)) invalid_request
  ok outputs

-- What follows the dispatch on the mode.
unfoldable pub sweep_all :
    Outputs → List CandidateCoin → SelectionRequest → Result SelectionError CoinSelection
unfolding sweep_loop validate_sweep
sweep_all make_outputs coins request = do
  validate_sweep request
  reject_if (ltb 100000 (length coins)) limit_exceeded
  swept ← sweep_loop request coins [] request.max_inputs no_capacity 0
  reject_if (leb swept.total request.fee) insufficient_funds
  outputs ← make_outputs swept (swept.total - request.fee)
  reject_if (ltb max_transaction_messages (length swept.inputs * 3 + length outputs + 3))
      limit_exceeded
  ok (record {
    inputs = swept.inputs;
    spend_outputs = outputs;
    change_outputs = [];
    input_value = swept.total;
    fee = request.fee;
  })

unfoldable pub select_sweep :
    List CandidateCoin → SelectionRequest → SweepMode → Run (Result SelectionError CoinSelection)
unfolding sweep_all preserved_outputs aggregated_outputs select_aggregate
select_sweep coins request (aggregate_threshold policy) = select_aggregate coins request policy
select_sweep coins request preserve_denominations =
    done (sweep_all (preserved_outputs request) coins request)
select_sweep coins request (aggregate maximum) =
    done (sweep_all (aggregated_outputs request maximum) coins request)
