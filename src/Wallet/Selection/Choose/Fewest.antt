-- ===== src/Wallet/Selection/Choose/Fewest.antt =====
-- What `select_fewest` and `select_fewest_converting` guarantee (selection.rs).
use quai_rust_sdk.Prelude.{
  ℕ, ◌+◌, ◌*◌, ◌≤◌, ◌<◌, ◌≡◌, refl, subst, ◌⊎◌, inl, inr, List, [], ◌∷◌, length, All, arith, ok,
  Bool, true, false, >>=-eq-ok, ok_or-ok, if◌then◌else◌,
}
use quai_rust_sdk.Consensus.Denomination.{IsDenomination}
use quai_rust_sdk.Wallet.Selection.Types.{
  OutPoint, CandidateCoin, SelectionRequest, CoinSelection, overflow, checked_add, checked_add-some,
}
use quai_rust_sdk.Wallet.Selection.Denominate.Worth.{tally}
use quai_rust_sdk.Wallet.Selection.Bucket.{
  Buckets, is_eligible, validate_request, validate_and_bucket,
}
use quai_rust_sdk.Wallet.Selection.Bucket.Coins.{denominations, coins_value, spends}
use quai_rust_sdk.Wallet.Selection.Bucket.Keeps.{validated-All, validated-spends}
use quai_rust_sdk.Wallet.Selection.Choose.{
  max_transaction_messages, choose, select_fewest_inner, select_fewest, select_fewest_converting,
}
use quai_rust_sdk.Wallet.Selection.Choose.Pick.{
  picked_sum, picked_within, picked-All, picked-spends,
}
use quai_rust_sdk.Wallet.Selection.Choose.Sound.{IsValidCoin, choose_lem}

abbrev pub Among : CandidateCoin → List CandidateCoin → Type 0
Among c [] = ⊥
Among c (d ∷ ds) = (c ≡ d) ⊎ Among c ds

-- A coin of the snapshot that the request allows to spend.
abbrev pub IsSpendable : List CandidateCoin → SelectionRequest → CandidateCoin → Type 0
IsSpendable coins request c = Among c coins × (is_eligible request c ≡ true)

pub All-Among :
    (request : SelectionRequest) (coins front : List CandidateCoin)
    → ((c : CandidateCoin) → Among c front → Among c coins)
    → All (λ c. is_eligible request c ≡ true → IsSpendable coins request c) front
All-Among request coins [] h = tt
All-Among request coins (c ∷ front) h =
    (λ e. (h c (inl refl), e), All-Among request coins front (λ d m. h d (inr m)))

pub All-allowed :
    (request : SelectionRequest) (coins : List CandidateCoin)
    → All IsValidCoin coins
    → All (λ c. is_eligible request c ≡ true → IsValidCoin c) coins
All-allowed request [] h = tt
All-allowed request (c ∷ coins) h = (λ _. h.0, All-allowed request coins h.1)

-- A selection that spends coins of the snapshot once each, and accounts for every Qit.
pub record IsSelection (coins : List CandidateCoin) (request : SelectionRequest) (aggregated : Bool)
    (sel : CoinSelection) : Type 0 where
  pub spendable : All (IsSpendable coins request) sel.inputs
  pub once : (o : OutPoint) → spends o sel.inputs ≤ 1
  pub total : sel.input_value ≡ coins_value sel.inputs
  pub target : tally 0 sel.spend_outputs ≡ request.target
  pub balance : request.target + request.fee + tally 0 sel.change_outputs ≡ sel.input_value
  pub fee : sel.fee ≡ request.fee
  pub inputs : length sel.inputs ≤ request.max_inputs
  pub outputs : length sel.spend_outputs + length sel.change_outputs ≤ request.max_outputs
  pub messages :
      length sel.inputs * 3 + length sel.spend_outputs + length sel.change_outputs + 3
      ≤ max_transaction_messages
  pub inputs_valid : All IsValidCoin sel.inputs
  pub spent_valid : (if aggregated then Unit {0} else All IsDenomination sel.spend_outputs)
  pub change_valid : All IsDenomination sel.change_outputs
  pub drawn :
      (k : ℕ)
      → (if aggregated then 0 else tally k sel.spend_outputs) + tally k sel.change_outputs
        ≤ tally k (denominations sel.inputs)

-- What the scalar checks let through.
pub record IsRequest (request : SelectionRequest) : Type 0 where
  pub positive : 0 < request.target
  pub budget : request.fee ≤ request.max_fee
  pub some_input : 1 ≤ request.max_inputs
  pub few_inputs : request.max_inputs ≤ 4096
  pub some_output : 1 ≤ request.max_outputs
  pub few_outputs : request.max_outputs ≤ 4096

pub validate_request-ok :
    (request : SelectionRequest) → validate_request request ≡ ok tt → IsRequest request
unfolding validate_request
validate_request-ok request h = ground arith

pub choice-IsSelection :
    (coins : List CandidateCoin) (request : SelectionRequest) (aggregated : Bool)
    {buckets : Buckets} {sel : CoinSelection}
    → IsRequest request
    → validate_and_bucket coins request ≡ ok buckets
    → All IsValidCoin coins
    → choose buckets request (request.target + request.fee) aggregated ≡ ok sel
    → IsSelection coins request aggregated sel
choice-IsSelection coins request aggregated {buckets} {sel} r validated valid chosen =
    let c =
      choose_lem buckets request (request.target + request.fee) aggregated
        (validated-All coins request validated IsValidCoin (All-allowed request coins valid))
        r.some_input r.few_inputs chosen in
    record {
      spendable =
          picked-All buckets request (request.target + request.fee)
            {p = (sel.inputs, sel.input_value)} c.picked (IsSpendable coins request)
            (validated-All coins request validated (IsSpendable coins request)
              (All-Among request coins coins (λ _ m. m)));
      once = λ o. omega (
        arith,
        picked-spends buckets request (request.target + request.fee)
            {p = (sel.inputs, sel.input_value)} c.picked o,
        validated-spends coins request validated o,
      );
      total =
          picked_sum buckets request (request.target + request.fee)
            {p = (sel.inputs, sel.input_value)} c.picked;
      target = c.spent;
      balance = c.change;
      fee = c.fee;
      inputs =
          picked_within buckets request (request.target + request.fee)
            {p = (sel.inputs, sel.input_value)} c.picked r.some_input;
      outputs = c.outputs;
      messages = c.messages;
      inputs_valid =
          picked-All buckets request (request.target + request.fee)
            {p = (sel.inputs, sel.input_value)} c.picked IsValidCoin
            (validated-All coins request validated IsValidCoin (All-allowed request coins valid));
      spent_valid = c.spent_valid;
      change_valid = c.change_valid;
      drawn = c.drawn;
    }

-- The steps of a successful selection.
pub inner_steps :
    (coins : List CandidateCoin) (request : SelectionRequest) (aggregated : Bool)
    {sel : CoinSelection}
    → select_fewest_inner coins request aggregated ≡ ok sel
    → (buckets : Buckets) × IsRequest request
      × (validate_and_bucket coins request ≡ ok buckets)
      × (choose buckets request (request.target + request.fee) aggregated ≡ ok sel)
unfolding select_fewest_inner
inner_steps coins request aggregated {sel} h =
    let (_, checked, h₁) = >>=-eq-ok (validate_request request) _ h in
    let (required, sum, h₂) = ok_or-ok (checked_add 256 request.target request.fee) overflow _ h₁ in
    let (exact, _) = checked_add-some 256 request.target request.fee sum in
    let (buckets, validated, h₃) = >>=-eq-ok (validate_and_bucket coins request) _ h₂ in
    (
      buckets,
      validate_request-ok request checked,
      validated,
      subst (λ n. choose buckets request n aggregated ≡ ok sel) exact h₃,
    )

inner-IsSelection :
    (coins : List CandidateCoin) (request : SelectionRequest) (aggregated : Bool)
    {sel : CoinSelection}
    → All IsValidCoin coins
    → select_fewest_inner coins request aggregated ≡ ok sel
    → IsSelection coins request aggregated sel
inner-IsSelection coins request aggregated {sel} valid h =
    let (buckets, r, validated, chosen) = inner_steps coins request aggregated {sel = sel} h in
    choice-IsSelection coins request aggregated {buckets = buckets} {sel = sel} r validated valid
      chosen

-- From a snapshot of valid denominations, a successful ordinary selection spends eligible coins of
-- the snapshot, each outpoint at most once and within the limits, its inputs are worth target, fee
-- and change to the Qit, and from every denomination up its outputs are worth no more than its inputs.
pub select_fewest-IsSelection :
    (coins : List CandidateCoin) (request : SelectionRequest) {sel : CoinSelection}
    → All IsValidCoin coins
    → select_fewest coins request ≡ ok sel
    → IsSelection coins request false sel
select_fewest-IsSelection coins request {sel} valid h =
    inner-IsSelection coins request false {sel = sel} valid (unfold_fewest h)
  where
    unfold_fewest :
        select_fewest coins request ≡ ok sel → select_fewest_inner coins request false ≡ ok sel
    unfold_fewest h = unfold select_fewest in h

-- From a snapshot of valid denominations, a successful converting selection spends eligible coins of
-- the snapshot, each outpoint at most once and within the limits, and its inputs are worth target, fee
-- and change to the Qit; only its change is drawn from the inventory of its inputs.
pub select_fewest_converting-IsSelection :
    (coins : List CandidateCoin) (request : SelectionRequest) {sel : CoinSelection}
    → All IsValidCoin coins
    → select_fewest_converting coins request ≡ ok sel
    → IsSelection coins request true sel
select_fewest_converting-IsSelection coins request {sel} valid h =
    inner-IsSelection coins request true {sel = sel} valid (unfold_converting h)
  where
    unfold_converting :
        select_fewest_converting coins request ≡ ok sel
        → select_fewest_inner coins request true ≡ ok sel
    unfold_converting h = unfold select_fewest_converting in h
