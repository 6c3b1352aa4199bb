-- ===== src/Wallet/Selection/Choose/Rule.antt =====
-- The selection and the standalone check agree (selection.rs).
use quai_rust_sdk.Prelude.{
  ◌≡◌, List, [], ◌∷◌, ◌++◌, length-append, All, All-append, arith, ok, false,
}
use quai_rust_sdk.Consensus.Denomination.{IsDenomination}
use quai_rust_sdk.Wallet.Selection.Types.{CandidateCoin, SelectionRequest, CoinSelection}
use quai_rust_sdk.Wallet.Selection.Denominate.{preserves_denominations}
use quai_rust_sdk.Wallet.Selection.Denominate.Worth.{tally-append}
use quai_rust_sdk.Wallet.Selection.Denominate.Preserves.{preserves_denominations_iff}
use quai_rust_sdk.Wallet.Selection.Bucket.Coins.{denominations, length-denominations, nonempty}
use quai_rust_sdk.Wallet.Selection.Choose.{select_fewest}
use quai_rust_sdk.Wallet.Selection.Choose.Sound.{IsValidCoin}
use quai_rust_sdk.Wallet.Selection.Choose.Fewest.{IsRequest, select_fewest-IsSelection, inner_steps}

denominations-All :
    (cs : List CandidateCoin) → All IsValidCoin cs → All IsDenomination (denominations cs)
denominations-All [] h = tt
denominations-All (c ∷ cs) h = (h.0, denominations-All cs h.1)

selected-IsRequest :
    (coins : List CandidateCoin) (request : SelectionRequest) {sel : CoinSelection}
    → select_fewest coins request ≡ ok sel
    → IsRequest request
unfolding select_fewest
selected-IsRequest coins request {sel} h = (inner_steps coins request false {sel = sel} h).1

-- From a snapshot of valid denominations, the outputs that `select_fewest` builds, recipient and
-- change, pass `preserves_denominations` against the denominations of its inputs.
pub select_fewest-preserves :
    (coins : List CandidateCoin) (request : SelectionRequest) {sel : CoinSelection}
    → All IsValidCoin coins
    → select_fewest coins request ≡ ok sel
    → preserves_denominations (denominations sel.inputs) (sel.spend_outputs ++ sel.change_outputs)
      ≡ ok tt
select_fewest-preserves coins request {sel} valid h =
    let s = select_fewest-IsSelection coins request {sel = sel} valid h in
    let r = selected-IsRequest coins request {sel = sel} h in
    (preserves_denominations_iff (denominations sel.inputs)
        (sel.spend_outputs ++ sel.change_outputs) (denominations-All sel.inputs s.inputs_valid)
        (All-append IsDenomination sel.spend_outputs sel.change_outputs s.spent_valid
          s.change_valid)).1
      (
        omega (
          arith,
          length-denominations sel.inputs,
          nonempty sel.inputs (omega (arith, s.total, s.balance, r.positive)),
        ),
        omega (arith, length-denominations sel.inputs, s.inputs, r.few_inputs),
        omega (arith, length-append sel.spend_outputs sel.change_outputs, s.outputs, r.few_outputs),
        λ k. omega (arith, tally-append k sel.spend_outputs sel.change_outputs, s.drawn k),
      )
