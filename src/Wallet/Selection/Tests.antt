-- ===== src/Wallet/Selection/Tests.antt =====
-- Runs of coin selection on small snapshots.
mod Sweeps
use quai_rust_sdk.Prelude.{
  ℕ, ◌*◌, ◌≤◌, ◌<◌, ◌⊎◌, ◌↔◌, length, arith, ◌≡◌, refl, List, [], ◌∷◌, ◌++◌, replicate, none, true,
  false, ok, err, map, flatten,
}
use quai_rust_sdk.Primitives.Shard.{cyprus1, byte}
use quai_rust_sdk.Consensus.Denomination.{Denomination}
use quai_rust_sdk.Wallet.Selection.Types.{
  new_coin, CandidateCoin, SelectionRequest, CoinSelection, insufficient_funds, limit_exceeded,
  invalid_coin,
}
use quai_rust_sdk.Wallet.Selection.Denominate.{
  denominate_available, denominate_largest, take_levels, take_units, source_for, split_down,
  preserves_denominations, no_capacity, count_into,
}
use quai_rust_sdk.Wallet.Selection.Denominate.Worth.{worth, tally}
use quai_rust_sdk.Wallet.Selection.Denominate.Inventory.{inputs_lem}
use quai_rust_sdk.Wallet.Selection.Denominate.Available.{IsPayment, denominate_available_lem}
use quai_rust_sdk.Wallet.Selection.Denominate.Largest.{denominate_largest_lem}
use quai_rust_sdk.Wallet.Selection.Denominate.Preserves.{preserves_denominations_iff}
use quai_rust_sdk.Wallet.Selection.Bucket.Coins.{denominations}
use quai_rust_sdk.Wallet.Selection.Bucket.Keeps.{eligible_value}
use quai_rust_sdk.Wallet.Selection.Choose.{
  Estimator, select_fewest, select_fewest_converting, select_with_fee,
}
use quai_rust_sdk.Wallet.Selection.Choose.Fewest.{
  IsSelection, select_fewest-IsSelection, select_fewest_converting-IsSelection,
}
use quai_rust_sdk.Wallet.Selection.Choose.Rule.{select_fewest-preserves}
use quai_rust_sdk.Wallet.Selection.Choose.Rounds.{with_fee, select_with_fee-covers}
use quai_rust_sdk.Wallet.Selection.Choose.Short.{select_fewest-short}

abbrev indexed : List ℕ → List Denomination
indexed = map (λ i. record { index = i })

-- One coin of 100 Qits pays 35 as 10 + 10 + 10 + 5, and what is left keeps the larger parts whole.
pays_35 :
    denominate_available 35 (0 ∷ 0 ∷ 0 ∷ 0 ∷ 1 ∷ replicate 10 0) 4
    ≡ ok (indexed (2 ∷ 2 ∷ 2 ∷ 1 ∷ []), 0 ∷ 1 ∷ 1 ∷ 1 ∷ 0 ∷ replicate 10 0)
unfolding denominate_available take_levels take_units source_for split_down
pays_35 = refl

-- Small coins are not combined, and the room is a bound.
not_combined : denominate_available 10 (10 ∷ replicate 14 0) 9 ≡ err limit_exceeded
unfolding denominate_available take_levels take_units source_for split_down
not_combined = refl

largest_35 : denominate_largest 35 4 ≡ ok (indexed (2 ∷ 2 ∷ 2 ∷ 1 ∷ []))
unfolding denominate_largest
largest_35 = refl

-- A coin of denomination `d` in Cyprus 1, told apart by its output index.
abbrev coin : ℕ → ℕ → CandidateCoin
coin index d =
    new_coin (record { transaction_hash = replicate 31 0 ++ (1 ∷ []); index = index })
      (record { address = record { bytes = 0 ∷ 0x80 ∷ replicate 18 0 }; zone = cyprus1 })
      (record { index = d })

abbrev request : ℕ → ℕ → SelectionRequest
request target fee = record {
  zone = cyprus1;
  candidate_height = 100;
  target = target;
  fee = fee;
  max_fee = 10;
  max_inputs = 16;
  max_outputs = 16;
}

-- The smallest sufficient coin: 50 Qits for 27 with a fee of 3.
one_coin :
    select_fewest (coin 0 2 ∷ coin 1 4 ∷ coin 2 3 ∷ []) (request 27 3)
    ≡ ok (record {
      inputs = coin 2 3 ∷ [];
      spend_outputs = indexed (2 ∷ 2 ∷ 1 ∷ 0 ∷ 0 ∷ []);
      change_outputs = indexed (2 ∷ 2 ∷ []);
      input_value = 50;
      fee = 3;
    })
unfolding select_fewest denominate_available take_levels take_units source_for split_down byte
    flatten
one_coin = refl

-- No single coin reaches: the largest come first.
two_coins :
    select_fewest (coin 0 2 ∷ coin 1 2 ∷ coin 2 3 ∷ []) (request 55 0)
    ≡ ok (record {
      inputs = coin 2 3 ∷ coin 1 2 ∷ [];
      spend_outputs = indexed (3 ∷ 1 ∷ []);
      change_outputs = indexed (1 ∷ []);
      input_value = 60;
      fee = 0;
    })
unfolding select_fewest denominate_available take_levels take_units source_for split_down byte
    flatten
two_coins = refl

repeated : select_fewest (coin 0 2 ∷ coin 0 2 ∷ []) (request 5 0) ≡ err invalid_coin
unfolding select_fewest byte
repeated = refl

-- The theorems at these snapshots.
abbrev snapshot : List CandidateCoin
snapshot = coin 0 2 ∷ coin 1 2 ∷ coin 2 3 ∷ []

abbrev two_coin_selection : CoinSelection
two_coin_selection = record {
  inputs = coin 2 3 ∷ coin 1 2 ∷ [];
  spend_outputs = indexed (3 ∷ 1 ∷ []);
  change_outputs = indexed (1 ∷ []);
  input_value = 60;
  fee = 0;
}

select_fewest-IsSelection_example : IsSelection snapshot (request 55 0) false two_coin_selection
select_fewest-IsSelection_example =
    select_fewest-IsSelection snapshot (request 55 0) {sel = two_coin_selection} (omega arith)
      two_coins

select_fewest-preserves_example :
    preserves_denominations
      (denominations two_coin_selection.inputs)
      (indexed (3 ∷ 1 ∷ []) ++ indexed (1 ∷ []))
    ≡ ok tt
select_fewest-preserves_example =
    select_fewest-preserves snapshot (request 55 0) {sel = two_coin_selection} (omega arith)
      two_coins

-- For a conversion the target is paid in the largest units, whatever the inputs were.
abbrev converting_selection : CoinSelection
converting_selection = record {
  inputs = coin 2 3 ∷ coin 1 2 ∷ [];
  spend_outputs = indexed (3 ∷ 1 ∷ []);
  change_outputs = indexed (1 ∷ []);
  input_value = 60;
  fee = 0;
}

converting : select_fewest_converting snapshot (request 55 0) ≡ ok converting_selection
unfolding select_fewest_converting denominate_available take_levels take_units source_for split_down
    byte flatten denominate_largest
converting = refl

select_fewest_converting-IsSelection_example :
    IsSelection snapshot (request 55 0) true converting_selection
select_fewest_converting-IsSelection_example =
    select_fewest_converting-IsSelection snapshot (request 55 0) {sel = converting_selection}
      (omega arith) converting

short : select_fewest snapshot (request 70 5) ≡ err insufficient_funds
unfolding select_fewest denominate_available take_levels take_units source_for split_down byte
    flatten
short = refl

select_fewest-short_example : eligible_value (request 70 5) snapshot < 75
select_fewest-short_example = select_fewest-short snapshot (request 70 5) (omega arith) short

-- An estimator of two Qits for each input.
abbrev two_each : Estimator
two_each calls sel = ok (2 * length sel.inputs)

abbrev with_fee_selection : CoinSelection
with_fee_selection = record {
  inputs = coin 2 3 ∷ coin 1 2 ∷ [];
  spend_outputs = indexed (3 ∷ 1 ∷ []);
  change_outputs = indexed (0 ∷ []);
  input_value = 60;
  fee = 4;
}

covered_fee : select_with_fee two_each snapshot (request 55 0) 8 ≡ ok with_fee_selection
unfolding select_with_fee denominate_available take_levels take_units source_for split_down byte
    flatten
covered_fee = refl

select_with_fee-covers_example :
    IsSelection snapshot (with_fee (request 55 0) 4) false with_fee_selection
    × (0 ≤ 4)
    × (4 ≤ 10)
    × ((calls : ℕ) × (quote : ℕ) × (two_each calls with_fee_selection ≡ ok quote) × (quote ≤ 4))
select_with_fee-covers_example =
    select_with_fee-covers two_each snapshot (request 55 0) 8 {sel = with_fee_selection}
      (omega arith) covered_fee

denominate_available_lem_example :
    ((outputs : List Denomination) × (after : List ℕ) × (denominate_available 35
          (count_into (indexed (4 ∷ [])) no_capacity)
          4
        ≡ ok (outputs, after))
      × IsPayment 35 4 (count_into (indexed (4 ∷ [])) no_capacity) outputs after)
    ⊎ ((denominate_available 35 (count_into (indexed (4 ∷ [])) no_capacity) 4 ≡ err limit_exceeded)
        × (4 < 35))
    ⊎ ((denominate_available 35 (count_into (indexed (4 ∷ [])) no_capacity) 4
          ≡ err insufficient_funds)
        × (worth 0 (count_into (indexed (4 ∷ [])) no_capacity) < 35))
denominate_available_lem_example =
    denominate_available_lem 35 (count_into (indexed (4 ∷ [])) no_capacity) 4
      (inputs_lem (indexed (4 ∷ [])) (omega arith) (omega arith)).0

denominate_largest_lem_example :
    ((outputs : List Denomination) × (denominate_largest 35 4 ≡ ok outputs)
      × (tally 0 outputs ≡ 35)
      × (length outputs ≤ 4))
    ⊎ ((denominate_largest 35 4 ≡ err limit_exceeded) × (4 < 35))
denominate_largest_lem_example = denominate_largest_lem 35 4

preserves_denominations_iff_example :
    (preserves_denominations (indexed (4 ∷ [])) (indexed (1 ∷ 3 ∷ [])) ≡ ok tt) ↔ (
      (0 < 1)
      × (1 ≤ 4096)
      × (2 ≤ 4096)
      × ((k : ℕ) → tally k (indexed (1 ∷ 3 ∷ [])) ≤ tally k (indexed (4 ∷ []))))
preserves_denominations_iff_example =
    preserves_denominations_iff (indexed (4 ∷ [])) (indexed (1 ∷ 3 ∷ [])) (omega arith)
      (omega arith)
