-- ===== src/Wallet/Selection/Choose.antt =====
-- The choice of inputs for an exact total, and the selections built on it (selection.rs).
pub mod Pick
pub mod Sound
pub mod Fewest
pub mod Rule
pub mod Rounds
pub mod Short
use quai_rust_sdk.Prelude.{
  ℕ, zero, suc, ◌+◌, ◌-◌, ◌*◌, Bool, true, false, ◌&&◌, ◌||◌, not, List, [], ◌∷◌, ◌++◌, Option,
  none, some, leb, ltb, ◌==◌, if◌then◌else◌, length, map, reverse, flatten, Result, ok, err, ◌>>=◌,
  ◌>>◌, reject_if, ok_or,
}
use quai_rust_sdk.Consensus.Denomination.{Denomination, value}
unfoldable pub use quai_rust_sdk.Consensus.Qi.{max_transaction_messages}
use quai_rust_sdk.Wallet.Selection.Types.{
  CandidateCoin, SelectionRequest, CoinSelection, SelectionError, invalid_request, overflow,
  insufficient_funds, limit_exceeded, fee_budget_exceeded, fee_did_not_converge, checked_add,
}
use quai_rust_sdk.Wallet.Selection.Denominate.{
  count_into, no_capacity, denominate_available, denominate_largest,
}
use quai_rust_sdk.Wallet.Selection.Bucket.Coins.{denominations}
use quai_rust_sdk.Wallet.Selection.Bucket.{Buckets, validate_request, validate_and_bucket}

-- `.iter().flatten().find(|c| value >= required)`
unfoldable pub find_covering : ℕ → List CandidateCoin → Option CandidateCoin
find_covering required [] = none
find_covering required (coin ∷ coins) =
    if leb required (value coin.denomination) then some coin else find_covering required coins

-- `buckets.iter().rev().flat_map(|bucket| bucket.iter().rev())`
unfoldable pub descending : Buckets → List CandidateCoin
descending buckets = reverse (flatten buckets)

-- The greedy loop; `room` is `request.max_inputs - chosen.len()`.
unfoldable pub greedy :
    ℕ → ℕ → ℕ → List CandidateCoin → Result SelectionError (List CandidateCoin × ℕ)
greedy required room total [] = ok ([], total)
greedy required room total (coin ∷ coins) = elim (leb required total) [
  | true ↦ ok ([], total)
  | false ↦ do
    reject_if (room == 0) limit_exceeded
    total' ← ok_or (checked_add 256 total (value coin.denomination)) overflow
    (chosen, final) ← greedy required (room - 1) total' coins
    ok (coin ∷ chosen, final)
]

-- The chosen inputs and their total: by the coin that the search found, or else greedily.
unfoldable pub pick_from :
    Buckets
    → SelectionRequest
    → ℕ
    → Option CandidateCoin
    → Result SelectionError (List CandidateCoin × ℕ)
pick_from buckets request required (some coin) = ok (coin ∷ [], value coin.denomination)
pick_from buckets request required none = greedy required request.max_inputs 0 (descending buckets)

unfoldable pub pick :
    Buckets → SelectionRequest → ℕ → Result SelectionError (List CandidateCoin × ℕ)
pick buckets request required =
    pick_from buckets request required (find_covering required (flatten buckets))

-- The recipient's outputs, and the inventory left for the change.
unfoldable pub spend_from :
    SelectionRequest → Bool → List ℕ → Result SelectionError (List Denomination × List ℕ)
spend_from request true capacity = do
  spend ← denominate_largest request.target request.max_outputs
  ok (spend, capacity)
spend_from request false capacity = denominate_available request.target capacity request.max_outputs

unfoldable pub choose : Buckets → SelectionRequest → ℕ → Bool → Result SelectionError CoinSelection
unfolding pick pick_from find_covering descending greedy spend_from count_into
choose buckets request required aggregated_spend = do
  (chosen, total) ← pick buckets request required
  reject_if (ltb total required) insufficient_funds
  (spend, capacity) ←
      spend_from request aggregated_spend (count_into (denominations chosen) no_capacity)
  (change, _) ←
      denominate_available (total - required) capacity (request.max_outputs - length spend)
  reject_if (ltb max_transaction_messages (length chosen * 3 + length spend + length change + 3))
      limit_exceeded
  ok (record {
    inputs = chosen;
    spend_outputs = spend;
    change_outputs = change;
    input_value = total;
    fee = request.fee;
  })

unfoldable pub select_fewest_inner :
    List CandidateCoin → SelectionRequest → Bool → Result SelectionError CoinSelection
unfolding validate_request validate_and_bucket choose
select_fewest_inner coins request aggregated_spend = do
  validate_request request
  required ← ok_or (checked_add 256 request.target request.fee) overflow
  buckets ← validate_and_bucket coins request
  choose buckets request required aggregated_spend

unfoldable pub select_fewest :
    List CandidateCoin → SelectionRequest → Result SelectionError CoinSelection
unfolding select_fewest_inner
select_fewest coins request = select_fewest_inner coins request false

unfoldable pub select_fewest_converting :
    List CandidateCoin → SelectionRequest → Result SelectionError CoinSelection
unfolding select_fewest_inner
select_fewest_converting coins request = select_fewest_inner coins request true

-- The caller's `FnMut` estimator: it may fail, and its answer may depend on how often it was called.
abbrev pub Estimator : Type 0
Estimator = ℕ → CoinSelection → Result SelectionError ℕ

-- The rounds of `select_with_fee`, with `calls` of them behind.
unfoldable pub fee_rounds :
    Estimator → Buckets → SelectionRequest → ℕ → ℕ → ℕ → Result SelectionError CoinSelection
unfolding choose
fee_rounds estimate buckets request zero calls fee = err fee_did_not_converge
fee_rounds estimate buckets request (suc rounds) calls fee = do
  required ← ok_or (checked_add 256 request.target fee) overflow
  selection ← choose buckets (record request { fee = fee }) required false
  quoted ← estimate calls selection
  let next = fee_rounds estimate buckets request rounds (suc calls) quoted
  if leb quoted fee
      then ok selection
      else if ltb request.max_fee quoted
      then err fee_budget_exceeded
      else next

unfoldable pub select_with_fee :
    Estimator → List CandidateCoin → SelectionRequest → ℕ → Result SelectionError CoinSelection
unfolding validate_request validate_and_bucket fee_rounds
select_with_fee estimate coins request max_rounds = do
  reject_if (not (leb 1 max_rounds && leb max_rounds 32)) invalid_request
  validate_request request
  buckets ← validate_and_bucket coins request
  fee_rounds estimate buckets request max_rounds 0 request.fee
