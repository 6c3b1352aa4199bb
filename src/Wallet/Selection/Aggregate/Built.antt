-- ===== src/Wallet/Selection/Aggregate/Built.antt =====
-- The selection that aggregation builds on a range (selection/aggregation.rs).
use quai_rust_sdk.Prelude.{
  ℕ, suc, ◌+◌, ◌-◌, ◌*◌, ◌≤◌, ◌<◌, ◌≡◌, refl, subst, List, [], ◌∷◌, ◌++◌, flatten, length,
  length-append, All, All-append, arith, Bool, true, false, ◌&&◌, ◌||◌, leb, ltb, ok, ok-injective,
  reject_if-ok, >>=-eq-ok, not_ltb→le,
}
use quai_rust_sdk.Consensus.Denomination.{Denomination, IsDenomination}
use quai_rust_sdk.Wallet.Selection.Types.{
  CandidateCoin, SelectionRequest, CoinSelection, invalid_request, insufficient_funds,
  limit_exceeded,
}
use quai_rust_sdk.Wallet.Selection.Denominate.{is_empty}
use quai_rust_sdk.Wallet.Selection.Denominate.Worth.{tally-append}
use quai_rust_sdk.Wallet.Selection.Divide.{by_division, by_division-IsDivided}
use quai_rust_sdk.Wallet.Selection.Bucket.Coins.{coins_value, coins_value-append, spends-append}
use quai_rust_sdk.Wallet.Selection.Bucket.Keeps.{validated-All, validated-spends}
use quai_rust_sdk.Wallet.Selection.Choose.{max_transaction_messages}
use quai_rust_sdk.Wallet.Selection.Choose.Sound.{IsValidCoin}
use quai_rust_sdk.Wallet.Selection.Choose.Fewest.{IsSpendable, All-Among}
use quai_rust_sdk.Wallet.Selection.Aggregate.{
  AggregationPolicy, Ranked, wrapping_add, fund, slice, build_aggregate, rank,
}
use quai_rust_sdk.Wallet.Selection.Aggregate.Ranges.{wrapping_add-exact, length-slice}
use quai_rust_sdk.Wallet.Selection.Aggregate.Funding.{fund_lem, slice-All}
use quai_rust_sdk.Wallet.Selection.Aggregate.Ordered.{rank_lem}
use quai_rust_sdk.Wallet.Selection.Aggregate.Consolidation.{IsAggregate, validate_sweep-ok}

-- What a selection is built of, for a range of the ordered coins.
pub record IsBuilt (request : SelectionRequest) (policy : AggregationPolicy)
    (ordered : List CandidateCoin) (start end v : ℕ) (sel : CoinSelection) : Type 0 where
  funding : List CandidateCoin
  final : ℕ
  first : List Denomination
  refund : List Denomination
  funded : fund request.fee start end 0 request.max_inputs 0 ordered ≡ ok (funding, final)
  covered : request.fee ≤ final
  fits : end - start ≤ request.max_inputs - length funding
  firsts : by_division (suc policy.maximum_output.index) request.max_outputs v ≡ ok first
  refunds :
      by_division
        (suc policy.maximum_output.index)
        (request.max_outputs - length first)
        (final - request.fee)
      ≡ ok refund
  inputs : sel.inputs ≡ funding ++ slice start end 0 ordered
  outputs : sel.spend_outputs ≡ first ++ refund
  no_change : sel.change_outputs ≡ []
  value : sel.input_value ≡ wrapping_add v final
  fee : sel.fee ≡ request.fee
  some_output : 0 < length sel.spend_outputs
  reduced : policy.require_reduction ≡ true → length sel.spend_outputs < length sel.inputs
  messages : length sel.inputs * 3 + length sel.spend_outputs + 3 ≤ max_transaction_messages

useful_lem :
    (ds : List Denomination) (b : Bool) (n : ℕ)
    → (is_empty ds || (b && leb n (length ds))) ≡ false
    → (0 < length ds) × (b ≡ true → length ds < n)
useful_lem [] b n h = cc
useful_lem (d ∷ ds) true n h = (omega arith, λ _. ground arith)
useful_lem (d ∷ ds) false n h = (omega arith, λ e. cc)

pub build_lem :
    (request : SelectionRequest) (policy : AggregationPolicy) (ordered : List CandidateCoin)
    (start end v : ℕ) {sel : CoinSelection}
    → build_aggregate request policy ordered start end v ≡ ok sel
    → IsBuilt request policy ordered start end v sel
unfolding build_aggregate
build_lem request policy ordered start end v {sel} h =
    let (p, funding, h₁) =
      >>=-eq-ok (fund request.fee start end 0 request.max_inputs 0 ordered) _ h in
    let (covered, h₂) = reject_if-ok (ltb p.1 request.fee) insufficient_funds _ h₁ in
    let (fits, h₃) =
      reject_if-ok (ltb (request.max_inputs - length p.0) (end - start)) limit_exceeded _ h₂ in
    let (first, firsts, h₄) =
      >>=-eq-ok (by_division (suc policy.maximum_output.index) request.max_outputs v) _ h₃ in
    let (refund, refunds, h₅) =
      >>=-eq-ok
        (by_division (suc policy.maximum_output.index) (request.max_outputs - length first)
          (p.1 - request.fee))
        _ h₄ in
    let (useful, h₆) = reject_if-ok _ invalid_request _ h₅ in
    let (bounded, h₇) = reject_if-ok _ limit_exceeded _ h₆ in
    let (some_output, reduced) =
      useful_lem (first ++ refund) policy.require_reduction
        (length (p.0 ++ slice start end 0 ordered)) useful in
    subst (IsBuilt request policy ordered start end v) (ok-injective h₇) (record {
      funding = p.0;
      final = p.1;
      first = first;
      refund = refund;
      funded = funding;
      covered = not_ltb→le _ _ covered;
      fits = not_ltb→le _ _ fits;
      firsts = firsts;
      refunds = refunds;
      inputs = refl;
      outputs = refl;
      no_change = refl;
      value = refl;
      fee = refl;
      some_output = some_output;
      reduced = reduced;
      messages = not_ltb→le _ _ bounded;
    })

module _ (coins : List CandidateCoin) (request : SelectionRequest) (policy : AggregationPolicy)
    (valid : All IsValidCoin coins) (allowed : IsDenomination policy.maximum_output) (r : Ranked)
    (start end v : ℕ) (ranking : rank coins request policy ≡ ok r) (le : start ≤ end)
    (count : v ≡ coins_value (slice start end 0 (flatten r.buckets))) where
  pub built-IsAggregate :
      {sel : CoinSelection}
      → IsBuilt request policy (flatten r.buckets) start end v sel
      → IsAggregate coins request policy sel
  built-IsAggregate {sel} b =
      let (checked, validated, ranked, more, _) =
        rank_lem coins request policy {r = r} valid ranking in
      let s = validate_sweep-ok request checked in
      let f =
        fund_lem request.fee start end 0 request.max_inputs 0 (flatten r.buckets)
          {p = (b.funding, b.final)} (omega (arith, ranked.sum, ranked.bound)) b.funded in
      let d =
        by_division-IsDivided (suc policy.maximum_output.index) request.max_outputs v
          {outputs = b.first} (omega arith) (omega arith) b.firsts in
      let e =
        by_division-IsDivided (suc policy.maximum_output.index)
          (request.max_outputs - length b.first) (b.final - request.fee) {outputs = b.refund}
          (omega arith) (omega arith) b.refunds in
      let all =
        validated-All coins request validated (IsSpendable coins request)
          (All-Among request coins coins (λ _ m. m)) in
      let sum =
        wrapping_add-exact v b.final
          (omega (arith, f.sum, f.apart_value, ranked.sum, ranked.bound, count)) in
      record {
        consolidation = record {
          spendable = rw b.inputs (
              All-append (IsSpendable coins request) b.funding
                (slice start end 0 (flatten r.buckets)) (f.from (IsSpendable coins request) all)
                (slice-All (IsSpendable coins request) start end 0 (flatten r.buckets) all));
          once = λ o. rw b.inputs (
              omega (
                arith,
                spends-append o b.funding (slice start end 0 (flatten r.buckets)),
                f.apart o,
                validated-spends coins request validated o,
              ));
          total =
              rw (b.inputs, b.value)
                (omega (
                  arith,
                  sum,
                  f.sum,
                  count,
                  coins_value-append b.funding (slice start end 0 (flatten r.buckets)),
                ));
          balance =
              rw (b.outputs, b.value)
                (omega (arith, sum, tally-append 0 b.first b.refund, d.exact, e.exact, b.covered));
          no_change = b.no_change;
          fee = b.fee;
          budget = s.budget;
          inputs = rw b.inputs (
              omega (
                arith,
                length-append b.funding (slice start end 0 (flatten r.buckets)),
                (length-slice start end 0 (flatten r.buckets)).0,
                b.fits,
                f.within,
              ));
          outputs =
              rw b.outputs (omega (arith, length-append b.first b.refund, d.within, e.within));
          messages = b.messages;
        };
        some_output = b.some_output;
        allowed = rw b.outputs (
            All-append (λ d. d.index < suc policy.maximum_output.index) b.first b.refund d.below
              e.below);
        reduced = b.reduced;
      }
