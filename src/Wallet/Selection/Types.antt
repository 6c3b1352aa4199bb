-- ===== src/Wallet/Selection/Types.antt =====
-- Candidate coins, requests, results and errors of coin selection (selection.rs).
-- A U256 or u64 is a native number; a 32-byte hash is the list of its bytes.
use quai_rust_sdk.Prelude.{ℕ, Bool, false, Option, none, List, Result, ok, err}
use quai_rust_sdk.Primitives.Shard.{Zone}
use quai_rust_sdk.Primitives.Address.{LedgerAddress}
use quai_rust_sdk.Consensus.Denomination.{Denomination}
use quai_rust_sdk.Consensus.Error.{TransactionError}
pub use quai_rust_sdk.Consensus.OutPoints.{OutPoint}
unfoldable pub use quai_rust_sdk.Prelude.Words.{checked_add}
pub use quai_rust_sdk.Prelude.Words.{checked_add-some}

pub record CandidateCoin : Type 0 where
  pub outpoint : OutPoint
  pub address : LedgerAddress
  pub denomination : Denomination
  pub unlock_height : ℕ
  pub expires_at : Option ℕ
  pub reserved : Bool

-- `CandidateCoin::new`, and its fields replaced.
abbrev pub new_coin : OutPoint → LedgerAddress → Denomination → CandidateCoin
new_coin outpoint address denomination = record {
  outpoint = outpoint;
  address = address;
  denomination = denomination;
  unlock_height = 0;
  expires_at = none;
  reserved = false;
}

abbrev pub with_unlock_height : CandidateCoin → ℕ → CandidateCoin
with_unlock_height coin unlock_height = record coin { unlock_height = unlock_height }

abbrev pub with_expires_at : CandidateCoin → Option ℕ → CandidateCoin
with_expires_at coin expires_at = record coin { expires_at = expires_at }

abbrev pub with_reserved : CandidateCoin → Bool → CandidateCoin
with_reserved coin reserved = record coin { reserved = reserved }

pub record SelectionRequest : Type 0 where
  pub zone : Zone
  pub candidate_height : ℕ
  pub target : ℕ
  pub fee : ℕ
  pub max_fee : ℕ
  pub max_inputs : ℕ
  pub max_outputs : ℕ

-- `SelectionRequest::new`, without a fee.
abbrev pub new_request : Zone → ℕ → ℕ → ℕ → ℕ → SelectionRequest
new_request zone candidate_height target max_inputs max_outputs = record {
  zone = zone;
  candidate_height = candidate_height;
  target = target;
  fee = 0;
  max_fee = 0;
  max_inputs = max_inputs;
  max_outputs = max_outputs;
}

abbrev pub with_fee : SelectionRequest → ℕ → ℕ → SelectionRequest
with_fee request fee max_fee = record request { fee = fee; max_fee = max_fee }

pub record CoinSelection : Type 0 where
  pub inputs : List CandidateCoin
  pub spend_outputs : List Denomination
  pub change_outputs : List Denomination
  pub input_value : ℕ
  pub fee : ℕ

pub data SelectionError : Type 0 where
  invalid_request invalid_coin overflow insufficient_funds limit_exceeded : SelectionError
  fee_budget_exceeded fee_did_not_converge estimation_failed : SelectionError

-- `.map_err(|_| SelectionError::InvalidCoin)?`
abbrev pub or_invalid_coin :
    Result TransactionError Denomination → Result SelectionError Denomination
or_invalid_coin (ok d) = ok d
or_invalid_coin (err _) = err invalid_coin
