-- ===== src/Provider/Tests/Confirmations.antt =====
-- A receipt that gets deep enough over the polls of a wait.
use quai_rust_sdk.Prelude.{ℕ, suc, ◌<◌, ◌≡◌, refl, arith, true, none, some, ◌∷◌, replicate, ok}
use quai_rust_sdk.Primitives.Hash.{Hash}
use quai_rust_sdk.Primitives.Shard.{cyprus1}
use quai_rust_sdk.Provider.Types.{ZoneHeader}
use quai_rust_sdk.Provider.Confirmation.{
  Receipt, ConfirmedReceipt, confirmation_poll, WaitConfig, wait_for_receipt,
}
use quai_rust_sdk.Provider.Confirmation.Sound.{IsConfirmed, confirmation_poll-IsConfirmed}
use quai_rust_sdk.Provider.Confirmation.Live.{
  Chain, answers, IsSettled, IsAnswer, wait_for_receipt_returns,
}

abbrev hash_of : ℕ → Hash
hash_of n = n ∷ replicate 31 7

abbrev header : ℕ → ZoneHeader
header n = record { hash = hash_of (suc n); parent_hash = hash_of n; number = n; zone = cyprus1 }

-- The receipt stands in the block 10.
abbrev receipt : Receipt
receipt = record {
  transaction_hash = hash_of 200;
  inclusion = record { block_hash = hash_of 11; block_number = 10; transaction_index = 0 };
}

-- The chain at height 12, whatever the poll.
abbrev settled_chain : ℕ → Chain
settled_chain i = record {
  receipt = some receipt;
  headers = λ n. some (header n);
  head = header 12;
}

abbrev config : WaitConfig
config = record { confirmations = 3; timeout = 60; poll_interval = 5 }

abbrev seen : ConfirmedReceipt
seen = record { receipt = receipt; confirmations = 3; observed_head = header 12 }

poll_confirms : (confirmation_poll 3 none (answers (settled_chain 0))).1 ≡ ok (some seen)
unfolding confirmation_poll answers
poll_confirms = refl

confirmation_poll-IsConfirmed_example : (0 < 3) × IsConfirmed 3 (answers (settled_chain 0)) seen
confirmation_poll-IsConfirmed_example =
    confirmation_poll-IsConfirmed 3 none (answers (settled_chain 0)) seen poll_confirms

settled_chain-IsSettled : IsSettled 3 (settled_chain 2)
settled_chain-IsSettled = record {
  receipt = receipt;
  block = header 10;
  known = refl;
  tip = refl;
  included = refl;
  by_hash = refl;
  deep = omega arith;
}

wait_for_receipt_returns_example :
    (c : ConfirmedReceipt) × (wait_for_receipt true 5 config (λ j. answers (settled_chain j))
      ≡ ok c)
    × IsAnswer 3 (λ j. answers (settled_chain j)) 2 c
wait_for_receipt_returns_example =
    wait_for_receipt_returns 5 2 config settled_chain (omega arith, omega arith, omega arith)
      (λ j. omega arith) settled_chain-IsSettled (omega arith)
