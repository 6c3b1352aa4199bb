-- ===== src/Consensus/Envelopes.antt =====
-- Envelopes that convert or wrap Qi (crates/quai-consensus/src/conversion.rs and wrapping.rs).
pub mod Parts
pub mod Conversion
pub mod Wrapping
use quai_rust_sdk.Prelude.{
  ℕ, ◌+◌, ◌==◌, ltb, Bool, true, false, ◌||◌, List, [], ◌∷◌, ◌++◌, map, length, Option, none, some,
  Result, ok, err, ◌>>=◌, ◌>>◌, reject_if, ok_or,
}
use quai_rust_sdk.Prelude.Words.{checked_add}
use quai_rust_sdk.Primitives.Bytes.{take, drop, to_be_bytes, from_be, from_be_bytes}
use quai_rust_sdk.Primitives.Address.{
  AddressError, Address, LedgerAddress, Ledger, quai, qi, ledger, try_from,
}
use quai_rust_sdk.Consensus.Error.{TransactionError, too_large, invalid_field, invalid_scope}
use quai_rust_sdk.Consensus.Denomination.{Denomination}
use quai_rust_sdk.Consensus.Qi.{
  conversion, wrapping, QiInput, QiOutput, QiTransaction, ConversionSlippage, new_slippage,
  max_transaction_messages, count_messages, qi_from_slice, quai_from_slice, validate_for,
}

-- `destination` is a QuaiAddress and `refund` a QiAddress.
pub record QiConversionIntent : Type 0 where
  pub destination : LedgerAddress
  pub refund : LedgerAddress
  pub slippage : ConversionSlippage

pub record QiConversionTransaction (K : Type 0) : Type 0 where
  pub transaction : QiTransaction K
  pub intent : QiConversionIntent

-- Both are QuaiAddresses.
pub record QiWrappingIntent : Type 0 where
  pub destination : LedgerAddress
  pub owner_contract : LedgerAddress

pub record QiWrappingTransaction (K : Type 0) : Type 0 where
  pub transaction : QiTransaction K
  pub intent : QiWrappingIntent

-- `.ok()` of a conversion to a QuaiAddress, or the rest of a search.
abbrev pub or_else : Result AddressError LedgerAddress → Option LedgerAddress → Option LedgerAddress
or_else (ok a) rest = some a
or_else (err _) rest = rest

-- `outputs.iter().find_map(|output| QuaiAddress::try_from(output.address).ok())`
unfoldable pub first_quai : List QiOutput → Option LedgerAddress
unfolding try_from
first_quai [] = none
first_quai (o ∷ os) = or_else (try_from quai o.address) (first_quai os)

-- `change.iter().any(|output| output.address.ledger() != Ledger::Qi)`
unfoldable pub any_not_qi : List QiOutput → Bool
unfolding ledger
any_not_qi [] = false
any_not_qi (o ∷ os) = elim (ledger o.address) [ quai ↦ true | qi ↦ any_not_qi os ]

-- The outputs to one destination, then the change.
unfoldable pub outputs_to : Address → List Denomination → List QiOutput → List QiOutput
outputs_to a denominations change =
    map (λ d. record { address = a; denomination = d }) denominations ++ change

-- The checks that both constructors begin with; `n` counts the inputs.
unfoldable pub check_parts :
    ℕ → List Denomination → List QiOutput → TransactionError → Result TransactionError (Unit {0})
unfolding count_messages any_not_qi
check_parts n denominations change missing =
    reject_if (length denominations == 0) missing
    >> (ok_or (checked_add 64 (length denominations) (length change)) too_large >>= λ output_len.
        ok_or (count_messages n output_len) too_large >>= λ messages.
        reject_if (ltb max_transaction_messages messages || (ltb 65535 n || ltb 65535 output_len))
          too_large
        >> reject_if (any_not_qi change) invalid_scope)

module _ {K : Type 0} where
  -- The payload that `QiConversionTransaction::new` builds: the slippage and the refund.
  unfoldable pub conversion_transaction :
      ℕ
      → List (QiInput K)
      → List Denomination
      → List QiOutput
      → QiConversionIntent
      → QiTransaction K
  unfolding to_be_bytes outputs_to
  conversion_transaction chain_id inputs converted change intent = record {
    chain_id = chain_id;
    inputs = inputs;
    outputs = outputs_to intent.destination.address converted change;
    payload = to_be_bytes 2 intent.slippage.value ++ intent.refund.address.bytes;
  }

  -- The payload that `QiWrappingTransaction::new` builds: the owner contract.
  unfoldable pub wrapping_transaction :
      ℕ → List (QiInput K) → List Denomination → List QiOutput → QiWrappingIntent → QiTransaction K
  unfolding outputs_to
  wrapping_transaction chain_id inputs wrapped change intent = record {
    chain_id = chain_id;
    inputs = inputs;
    outputs = outputs_to intent.destination.address wrapped change;
    payload = intent.owner_contract.address.bytes;
  }

module _ {K : Type 0} (key_address : K → Address) where
  -- `QiConversionTransaction::from_transaction`.
  unfoldable pub conversion_from_transaction :
      QiTransaction K → Result TransactionError (QiConversionTransaction K)
  unfolding validate_for first_quai qi_from_slice new_slippage from_be
  conversion_from_transaction transaction = validate_for key_address conversion transaction >>= λ _.
      ok_or (first_quai transaction.outputs) invalid_scope >>= λ destination.
      qi_from_slice (drop 2 transaction.payload) >>= λ refund.
      new_slippage (from_be_bytes (take 2 transaction.payload)) >>= λ slippage. ok (record {
        transaction = transaction;
        intent = record { destination = destination; refund = refund; slippage = slippage };
      })

  -- `QiConversionTransaction::new`.
  unfoldable pub new_conversion :
      ℕ
      → List (QiInput K)
      → List Denomination
      → List QiOutput
      → QiConversionIntent
      → Result TransactionError (QiConversionTransaction K)
  unfolding check_parts conversion_from_transaction conversion_transaction
  new_conversion chain_id inputs converted change intent =
      check_parts (length inputs) converted change (invalid_field "missing conversion output")
      >> conversion_from_transaction
          (conversion_transaction chain_id inputs converted change intent)

  -- `QiWrappingTransaction::from_transaction`.
  unfoldable pub wrapping_from_transaction :
      QiTransaction K → Result TransactionError (QiWrappingTransaction K)
  unfolding validate_for first_quai quai_from_slice
  wrapping_from_transaction transaction = validate_for key_address wrapping transaction >>= λ _.
      ok_or (first_quai transaction.outputs) invalid_scope >>= λ destination.
      quai_from_slice transaction.payload >>= λ owner_contract. ok (record {
        transaction = transaction;
        intent = record { destination = destination; owner_contract = owner_contract };
      })

  -- `QiWrappingTransaction::new`.
  unfoldable pub new_wrapping :
      ℕ
      → List (QiInput K)
      → List Denomination
      → List QiOutput
      → QiWrappingIntent
      → Result TransactionError (QiWrappingTransaction K)
  unfolding check_parts wrapping_from_transaction wrapping_transaction
  new_wrapping chain_id inputs wrapped change intent =
      check_parts (length inputs) wrapped change (invalid_field "missing wrapping output")
      >> wrapping_from_transaction (wrapping_transaction chain_id inputs wrapped change intent)
