-- ===== src/Consensus/Tests/Walks.antt =====
-- Walks over wire bytes and discounts at concrete inputs.
use quai_rust_sdk.Prelude.{ℕ, suc, ◌+◌, ◌≤◌, ◌≡◌, refl, arith, Bool, true, List, [], ◌∷◌, ok, some}
use quai_rust_sdk.Consensus.Wire.{transaction, preflight}
use quai_rust_sdk.Consensus.Wire.Grammar.{Message}
use quai_rust_sdk.Consensus.Wire.Grammar.Preflight.{preflight_iff}
use quai_rust_sdk.Consensus.Wire.Scan.{has_transaction_inputs}
use quai_rust_sdk.Consensus.Wire.Agreement.{TopLevel, has_transaction_inputs-preflight}
use quai_rust_sdk.Consensus.Discount.{conversion_batch_discount_bps}
use quai_rust_sdk.Consensus.Discount.Monotone.{conversion_batch_discount_bps-grows}

-- A transaction whose field 1 is a number and whose inputs hold one empty input.
abbrev one_input : List ℕ
one_input = 8 ∷ 2 ∷ 122 ∷ 2 ∷ 10 ∷ 0 ∷ []

one_input_passes : preflight one_input transaction 16384 ≡ ok 16381
unfolding preflight
one_input_passes = refl

-- An access list with a tuple and its hash, and the hashes of the fields 19 and 20.
counts_hashes :
    preflight (74 ∷ 4 ∷ 10 ∷ 2 ∷ 18 ∷ 0 ∷ 154 ∷ 1 ∷ 0 ∷ 162 ∷ 1 ∷ 0 ∷ []) transaction 10 ≡ ok 4
unfolding preflight
counts_hashes = refl

preflight_iff_example : (n : ℕ) × Message transaction one_input n × (16384 ≡ suc (n + 16381))
preflight_iff_example = (preflight_iff one_input transaction 16384 16381).0 one_input_passes

has_transaction_inputs-preflight_example :
    (x : Bool) × TopLevel one_input x × (has_transaction_inputs one_input ≡ x)
has_transaction_inputs-preflight_example =
    has_transaction_inputs-preflight one_input 16384 16381 (omega arith) one_input_passes

finds_inputs : has_transaction_inputs one_input ≡ true
unfolding has_transaction_inputs
finds_inputs = refl

smaller_batch : conversion_batch_discount_bps 5 4 ≡ some 30
unfolding conversion_batch_discount_bps
smaller_batch = refl

larger_batch : conversion_batch_discount_bps 8 4 ≡ some 90
unfolding conversion_batch_discount_bps
larger_batch = refl

conversion_batch_discount_bps-grows_example : (20 ≤ 30) × (30 ≤ 90) × (90 ≤ 9000)
conversion_batch_discount_bps-grows_example =
    conversion_batch_discount_bps-grows 5 8 4 30 90 (omega arith) smaller_batch larger_batch
