-- ===== src/Wallet/Selection/Sweep/Sound.antt =====
-- What a sweep guarantees, by mode (selection.rs, `select_sweep`).
use quai_rust_sdk.Prelude.{
  ℕ, suc, ◌+◌, ◌-◌, ◌*◌, ◌≤◌, ◌<◌, ◌≡◌, refl, ap, sym, subst, ◌∙◌, List, [], ◌∷◌, length, All,
  arith, leb, ltb, ok, ok-injective, reject_if-ok, >>=-eq-ok, not_ltb→le, not_leb→lt, Result,
  Bool-cases, inl, inr,
}
use quai_rust_sdk.Consensus.Denomination.{Denomination, IsDenomination}
use quai_rust_sdk.Wallet.Selection.Types.{
  CandidateCoin, SelectionRequest, CoinSelection, SelectionError, invalid_request,
  insufficient_funds, limit_exceeded,
}
use quai_rust_sdk.Wallet.Selection.Denominate.{
  no_capacity, denominate_available, preserves_denominations,
}
use quai_rust_sdk.Wallet.Selection.Denominate.Worth.{tally, worth}
use quai_rust_sdk.Wallet.Selection.Denominate.Split.{IsInventory}
use quai_rust_sdk.Wallet.Selection.Denominate.Inventory.{inputs_lem}
use quai_rust_sdk.Wallet.Selection.Denominate.Available.{IsPayment, denominate_available_ok}
use quai_rust_sdk.Wallet.Selection.Denominate.Preserves.{preserves_denominations_iff}
use quai_rust_sdk.Wallet.Selection.Divide.{by_division, IsDivided, by_division-IsDivided}
use quai_rust_sdk.Wallet.Selection.Bucket.{contains, is_eligible}
use quai_rust_sdk.Wallet.Selection.Bucket.Coins.{denominations, length-denominations, nonempty}
use quai_rust_sdk.Wallet.Selection.Choose.{max_transaction_messages}
use quai_rust_sdk.Wallet.Selection.Choose.Sound.{IsValidCoin}
use quai_rust_sdk.Wallet.Selection.Choose.Fewest.{Among, IsSpendable}
use quai_rust_sdk.Wallet.Selection.Aggregate.{Run, done, validate_sweep}
use quai_rust_sdk.Wallet.Selection.Aggregate.Consolidation.{
  IsConsolidation, IsSweepable, validate_sweep-ok,
}
use quai_rust_sdk.Wallet.Selection.Sweep.{
  preserve_denominations, aggregate, Swept, Outputs, sweep_loop, preserved_outputs,
  aggregated_outputs, sweep_all, select_sweep,
}
use quai_rust_sdk.Wallet.Selection.Sweep.Loop.{IsSwept, eligible, sweep_loop_lem}

-- The eligible coins are spendable, and valid if the snapshot is.
eligible-IsSpendable :
    (coins : List CandidateCoin) (request : SelectionRequest) (front : List CandidateCoin)
    → ((c : CandidateCoin) → Among c front → Among c coins)
    → All (IsSpendable coins request) (eligible request front)
unfolding eligible
eligible-IsSpendable coins request [] h = tt
eligible-IsSpendable coins request (c ∷ front) h = elim (Bool-cases (is_eligible request c)) [
  | inl e ↦
      rw e ((h c (inl refl), e), eligible-IsSpendable coins request front (λ d m. h d (inr m)))
  | inr e ↦ rw e (eligible-IsSpendable coins request front (λ d m. h d (inr m)))
]

eligible_valid :
    (request : SelectionRequest) (cs : List CandidateCoin)
    → All IsValidCoin cs
    → All IsDenomination (denominations (eligible request cs))
unfolding eligible
eligible_valid request [] h = tt
eligible_valid request (c ∷ cs) h = elim (Bool-cases (is_eligible request c)) [
  | inl e ↦ rw e (h.0, eligible_valid request cs h.1)
  | inr e ↦ rw e (eligible_valid request cs h.1)
]

-- The parts of a sweep, whatever makes its outputs.
record IsMade (make_outputs : Outputs) (coins : List CandidateCoin) (request : SelectionRequest)
    (sel : CoinSelection) : Type 0 where
  swept : Swept
  checked : IsSweepable request
  collected : IsSwept request coins [] request.max_inputs no_capacity 0 swept
  left : request.fee < swept.total
  made : make_outputs swept (swept.total - request.fee) ≡ ok sel.spend_outputs
  inputs : sel.inputs ≡ swept.inputs
  value : sel.input_value ≡ swept.total
  no_change : sel.change_outputs ≡ []
  fee : sel.fee ≡ request.fee
  messages : length sel.inputs * 3 + length sel.spend_outputs + 3 ≤ max_transaction_messages

sweep_all_lem :
    (make_outputs : Outputs) (coins : List CandidateCoin) (request : SelectionRequest)
    {sel : CoinSelection}
    → sweep_all make_outputs coins request ≡ ok sel
    → IsMade make_outputs coins request sel
unfolding sweep_all
sweep_all_lem make_outputs coins request {sel} h =
    let (_, checked, h₁) = >>=-eq-ok (validate_sweep request) _ h in
    let (_, h₂) = reject_if-ok (ltb 100000 (length coins)) limit_exceeded _ h₁ in
    let (swept, looped, h₃) =
      >>=-eq-ok (sweep_loop request coins [] request.max_inputs no_capacity 0) _ h₂ in
    let (left, h₄) = reject_if-ok (leb swept.total request.fee) insufficient_funds _ h₃ in
    let (outputs, made, h₅) = >>=-eq-ok (make_outputs swept (swept.total - request.fee)) _ h₄ in
    let (bounded, h₆) = reject_if-ok _ limit_exceeded _ h₅ in
    subst (IsMade make_outputs coins request) (ok-injective h₆) (record {
      swept = swept;
      checked = validate_sweep-ok request checked;
      collected =
          sweep_loop_lem request coins [] request.max_inputs no_capacity 0 {out = swept} looped;
      left = not_leb→lt _ _ left;
      made = made;
      inputs = refl;
      value = refl;
      no_change = refl;
      fee = refl;
      messages = not_ltb→le _ _ bounded;
    })

-- A sweep spends every eligible coin of the snapshot, in its order.
pub record IsSweep (coins : List CandidateCoin) (request : SelectionRequest) (sel : CoinSelection)
    : Type 0 where
  pub consolidation : IsConsolidation coins request sel
  pub everything : sel.inputs ≡ eligible request coins

made-IsSweep :
    (make_outputs : Outputs) (coins : List CandidateCoin) (request : SelectionRequest)
    {sel : CoinSelection}
    → (m : IsMade make_outputs coins request sel)
    → tally 0 sel.spend_outputs ≡ m.swept.total - request.fee
    → length sel.spend_outputs ≤ request.max_outputs
    → IsSweep coins request sel
made-IsSweep make_outputs coins request {sel} m exact within = record {
  consolidation = record {
    spendable =
        rw (m.inputs ∙ m.collected.inputs) (eligible-IsSpendable coins request coins (λ _ a. a));
    once = λ o. rw m.inputs (unfold contains in m.collected.once o);
    total = rw m.inputs (omega (arith, m.value, m.collected.sum));
    balance = omega (arith, exact, m.value, m.left);
    no_change = m.no_change;
    fee = m.fee;
    budget = m.checked.budget;
    inputs = rw m.inputs m.collected.within;
    outputs = within;
    messages = m.messages;
  };
  everything = m.inputs ∙ m.collected.inputs;
}

done_injective :
    {x y : Result SelectionError CoinSelection}
    → ◌≡◌ {A = Run (Result SelectionError CoinSelection)} (done x) (done y)
    → x ≡ y
done_injective e = cc

-- The outputs are paid from the inventory of the inputs.
paid_from :
    (coins : List CandidateCoin) (request : SelectionRequest) {sel : CoinSelection}
    → All IsDenomination (denominations sel.inputs)
    → (m : IsMade (preserved_outputs request) coins request sel)
    → (tally 0 sel.spend_outputs ≡ m.swept.total - request.fee)
      × (length sel.spend_outputs ≤ request.max_outputs)
      × All IsDenomination sel.spend_outputs
      × ((k : ℕ) → tally k sel.spend_outputs ≤ tally k (denominations sel.inputs))
unfolding preserved_outputs
paid_from coins request {sel} valid m =
    let ((outputs, after), paying, e) =
      >>=-eq-ok
        (denominate_available (m.swept.total - request.fee) m.swept.capacity request.max_outputs) _
        m.made in
    let (inv, total) = inventory in
    let payment =
      subst
        (λ ds.
          IsPayment (m.swept.total - request.fee) request.max_outputs m.swept.capacity ds after)
        (ok-injective e)
        (denominate_available_ok (m.swept.total - request.fee) m.swept.capacity request.max_outputs
          {outputs = outputs} {after = after} inv paying) in
    (payment.exact, payment.within, payment.valid, λ k. omega (arith, payment.drawn k, total k))
  where
    inventory :
        IsInventory m.swept.capacity
        × ((k : ℕ) → worth k m.swept.capacity ≡ tally k (denominations sel.inputs))
    inventory =
        rw (m.collected.inventory, sym m.inputs)
          (inputs_lem (denominations sel.inputs)
            (omega (
              arith,
              length-denominations sel.inputs,
              m.collected.within,
              ap length m.inputs,
              m.checked.few_inputs,
            ))
            valid)

-- Sweeping in the mode `PreserveDenominations` spends every eligible coin of the snapshot, each
-- outpoint once, on outputs that are worth them less the fee, within the limits and the approved
-- budget, and that pass `preserves_denominations`; the coins of the snapshot have valid denominations.
pub select_sweep-preserves :
    (coins : List CandidateCoin) (request : SelectionRequest) {sel : CoinSelection}
    → All IsValidCoin coins
    → select_sweep coins request preserve_denominations ≡ done (ok sel)
    → IsSweep coins request sel
      × (preserves_denominations (denominations sel.inputs) sel.spend_outputs ≡ ok tt)
unfolding select_sweep
select_sweep-preserves coins request {sel} valid h =
    let m =
      sweep_all_lem (preserved_outputs request) coins request {sel = sel} (done_injective h) in
    let inputs_valid =
      subst (λ cs. All IsDenomination (denominations cs)) (sym (m.inputs ∙ m.collected.inputs))
        (eligible_valid request coins valid) in
    let (exact, within, outputs_valid, drawn) =
      paid_from coins request {sel = sel} inputs_valid m in
    let sweep = made-IsSweep (preserved_outputs request) coins request {sel = sel} m exact within in
    (
      sweep,
      (preserves_denominations_iff (denominations sel.inputs) sel.spend_outputs inputs_valid
            outputs_valid).1
          (
            omega (
              arith,
              length-denominations sel.inputs,
              nonempty sel.inputs (omega (arith, sweep.consolidation.total, m.value, m.left)),
            ),
            omega (
              arith,
              length-denominations sel.inputs,
              sweep.consolidation.inputs,
              m.checked.few_inputs,
            ),
            omega (arith, within, m.checked.few_outputs),
            drawn,
          ),
    )

-- Sweeping in the mode `Aggregate`, with a valid maximum, spends every eligible coin of the snapshot,
-- each outpoint once, on outputs that are worth them less the fee, within the limits and the approved
-- budget; the outputs are fewer than the inputs, and of denominations up to the given maximum.
pub select_sweep-aggregates :
    (coins : List CandidateCoin) (request : SelectionRequest) (maximum : Denomination)
    {sel : CoinSelection}
    → IsDenomination maximum
    → select_sweep coins request (aggregate maximum) ≡ done (ok sel)
    → IsSweep coins request sel
      × (length sel.spend_outputs < length sel.inputs)
      × All (λ d. d.index < suc maximum.index) sel.spend_outputs
unfolding select_sweep aggregated_outputs
select_sweep-aggregates coins request maximum {sel} allowed h =
    let m =
      sweep_all_lem (aggregated_outputs request maximum) coins request {sel = sel}
        (done_injective h) in
    let (outputs, dividing, h₁) =
      >>=-eq-ok (by_division (suc maximum.index) request.max_outputs (m.swept.total - request.fee))
        _ m.made in
    let (fewer, h₂) =
      reject_if-ok (leb (length m.swept.inputs) (length outputs)) invalid_request _ h₁ in
    let d =
      subst (IsDivided (suc maximum.index) request.max_outputs (m.swept.total - request.fee))
        (ok-injective h₂)
        (by_division-IsDivided (suc maximum.index) request.max_outputs (m.swept.total - request.fee)
          {outputs = outputs} (omega arith) (omega arith) dividing) in
    (
      made-IsSweep (aggregated_outputs request maximum) coins request {sel = sel} m d.exact
          d.within,
      rw m.inputs (
          subst (λ ds. length ds < length m.swept.inputs) (ok-injective h₂) (not_leb→lt _ _ fewer)),
      d.below,
    )
