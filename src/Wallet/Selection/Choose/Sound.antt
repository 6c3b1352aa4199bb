-- ===== src/Wallet/Selection/Choose/Sound.antt =====
-- What a successful choice guarantees: exact amounts, limits, and the inventory it draws from.
use quai_rust_sdk.Prelude.{
  ℕ, suc, ◌+◌, ◌-◌, ◌*◌, ◌≤◌, ◌≡◌, refl, ap, subst, List, [], ◌∷◌, flatten, length, All, arith, ok,
  Bool, true, false, ltb, not_ltb→le, ok-injective, >>=-eq-ok, reject_if-ok, if◌then◌else◌,
}
use quai_rust_sdk.Consensus.Denomination.{Denomination, IsDenomination}
use quai_rust_sdk.Wallet.Selection.Types.{
  CandidateCoin, SelectionRequest, CoinSelection, limit_exceeded, insufficient_funds,
}
use quai_rust_sdk.Wallet.Selection.Denominate.{
  count_into, no_capacity, denominate_available, denominate_largest,
}
use quai_rust_sdk.Wallet.Selection.Denominate.Worth.{worth, tally}
use quai_rust_sdk.Wallet.Selection.Denominate.Split.{IsInventory}
use quai_rust_sdk.Wallet.Selection.Denominate.Inventory.{inputs_lem}
use quai_rust_sdk.Wallet.Selection.Denominate.Available.{denominate_available_ok}
use quai_rust_sdk.Wallet.Selection.Denominate.Largest.{denominate_largest_ok}
use quai_rust_sdk.Wallet.Selection.Bucket.{Buckets}
use quai_rust_sdk.Wallet.Selection.Choose.{max_transaction_messages, pick, spend_from, choose}
use quai_rust_sdk.Wallet.Selection.Bucket.Coins.{denominations}
use quai_rust_sdk.Wallet.Selection.Choose.Pick.{Picked, pick_lem, picked_within, picked-All}

abbrev pub IsValidCoin : CandidateCoin → Type 0
IsValidCoin c = IsDenomination c.denomination

-- The recipient's outputs are exact, and what they draw is gone from the inventory.
record IsSpend (request : SelectionRequest) (aggregated : Bool) (before : List ℕ)
    (spend : List Denomination) (after : List ℕ) : Type 0 where
  exact : tally 0 spend ≡ request.target
  within : length spend ≤ request.max_outputs
  drawn : (k : ℕ) → worth k after + (if aggregated then 0 else tally k spend) ≤ worth k before
  inventory : IsInventory after
  valid : (if aggregated then Unit {0} else All IsDenomination spend)

spend_from_lem :
    (request : SelectionRequest) (aggregated : Bool) (c : List ℕ) {p : List Denomination × List ℕ}
    → IsInventory c
    → spend_from request aggregated c ≡ ok p
    → IsSpend request aggregated c p.0 p.1
unfolding spend_from
spend_from_lem request true c {p} inv h =
    let (spend, e, r) = >>=-eq-ok (denominate_largest request.target request.max_outputs) _ h in
    let (exact, within) = denominate_largest_ok request.target request.max_outputs e in
    subst (λ p. IsSpend request true c p.0 p.1) {x = (spend, c)} {y = p} (ok-injective r)
      (record {
        exact = exact;
        within = within;
        drawn = λ k. omega arith;
        inventory = inv;
        valid = tt;
      })
spend_from_lem request false c {p} inv h =
    let payment =
      denominate_available_ok request.target c request.max_outputs {outputs = p.0} {after = p.1} inv
        h in
    record {
      exact = payment.exact;
      within = payment.within;
      drawn = payment.drawn;
      inventory = payment.inventory;
      valid = payment.valid;
    }

-- A selection over the buckets, for a required total.
pub record IsChoice (buckets : Buckets) (request : SelectionRequest) (required : ℕ)
    (aggregated : Bool) (sel : CoinSelection) : Type 0 where
  pub picked : Picked buckets request required (sel.inputs, sel.input_value)
  pub spent : tally 0 sel.spend_outputs ≡ request.target
  pub change : required + tally 0 sel.change_outputs ≡ sel.input_value
  pub outputs : length sel.spend_outputs + length sel.change_outputs ≤ request.max_outputs
  pub messages :
      length sel.inputs * 3 + length sel.spend_outputs + length sel.change_outputs + 3
      ≤ max_transaction_messages
  pub fee : sel.fee ≡ request.fee
  pub spent_valid : (if aggregated then Unit {0} else All IsDenomination sel.spend_outputs)
  pub change_valid : All IsDenomination sel.change_outputs
  pub drawn :
      (k : ℕ)
      → (if aggregated then 0 else tally k sel.spend_outputs) + tally k sel.change_outputs
        ≤ tally k (denominations sel.inputs)

module _ (buckets : Buckets) (request : SelectionRequest) (required : ℕ) (aggregated : Bool)
    (valid : All IsValidCoin (flatten buckets)) (some_input : 1 ≤ request.max_inputs)
    (few : request.max_inputs ≤ 4096) where
  pub denominations-All :
      (cs : List CandidateCoin) → All IsValidCoin cs → All IsDenomination (denominations cs)
  denominations-All [] h = tt
  denominations-All (c ∷ cs) h = (h.0, denominations-All cs h.1)

  pub length-denominations : (cs : List CandidateCoin) → length (denominations cs) ≡ length cs
  length-denominations [] = refl
  length-denominations (c ∷ cs) = ap suc (length-denominations cs)

  abbrev selection : List CandidateCoin → List Denomination → List Denomination → ℕ → CoinSelection
  selection chosen spend change total = record {
    inputs = chosen;
    spend_outputs = spend;
    change_outputs = change;
    input_value = total;
    fee = request.fee;
  }

  pub inventory :
      (p : List CandidateCoin × ℕ)
      → Picked buckets request required p
      → IsInventory (count_into (denominations p.0) no_capacity)
        × ((k : ℕ)
            → worth k (count_into (denominations p.0) no_capacity) ≡ tally k (denominations p.0))
  inventory p picked =
      inputs_lem (denominations p.0)
        (omega (
          arith,
          length-denominations p.0,
          picked_within buckets request required {p = p} picked some_input,
        ))
        (denominations-All p.0
          (picked-All buckets request required {p = p} picked IsValidCoin valid))

  assemble :
      (p : List CandidateCoin × ℕ) (spend : List Denomination) (left : List ℕ)
      (change : List Denomination) (after : List ℕ)
      → Picked buckets request required p
      → required ≤ p.1
      → IsSpend request aggregated (count_into (denominations p.0) no_capacity) spend left
      → denominate_available (p.1 - required) left (request.max_outputs - length spend)
        ≡ ok (change, after)
      → length p.0 * 3 + length spend + length change + 3 ≤ max_transaction_messages
      → IsChoice buckets request required aggregated (selection p.0 spend change p.1)
  assemble p spend left change after picked enough s changing bounded =
      let payment =
        denominate_available_ok (p.1 - required) left (request.max_outputs - length spend)
          {outputs = change} {after = after} s.inventory changing in
      record {
        picked = picked;
        spent = s.exact;
        change = omega (arith, payment.exact);
        outputs = omega (arith, payment.within, s.within);
        messages = bounded;
        fee = refl;
        spent_valid = s.valid;
        change_valid = payment.valid;
        drawn = λ k. omega (arith, (inventory p picked).1 k, s.drawn k, payment.drawn k);
      }

  pub choose_lem :
      {sel : CoinSelection}
      → choose buckets request required aggregated ≡ ok sel
      → IsChoice buckets request required aggregated sel
  unfolding choose
  choose_lem {sel} h =
      let (p, picking, h₁) = >>=-eq-ok (pick buckets request required) _ h in
      let (covered, h₂) = reject_if-ok (ltb p.1 required) insufficient_funds _ h₁ in
      let (q, spending, h₃) =
        >>=-eq-ok (spend_from request aggregated (count_into (denominations p.0) no_capacity)) _
          h₂ in
      let (r, changing, h₄) =
        >>=-eq-ok (denominate_available (p.1 - required) q.1 (request.max_outputs - length q.0)) _
          h₃ in
      let (bounded, h₅) = reject_if-ok _ limit_exceeded _ h₄ in
      let picked = pick_lem buckets request required {p = p} picking in
      subst (IsChoice buckets request required aggregated) {x = selection p.0 q.0 r.0 p.1} {y = sel}
        (ok-injective h₅)
        (assemble p q.0 q.1 r.0 r.1 picked (not_ltb→le p.1 required covered)
          (spend_from_lem request aggregated (count_into (denominations p.0) no_capacity) {p = q}
            (inventory p picked).0 spending)
          changing (not_ltb→le _ _ bounded))
