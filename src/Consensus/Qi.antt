-- ===== src/Consensus/Qi.antt =====
-- Qi transactions and their validation (crates/quai-consensus/src/qi.rs).
-- `K` is the type of public keys of the crypto crate, and `key_address` the address of a key.
-- A BTreeSet is the list of what was inserted into it.
pub mod Valid
pub mod Inputs
pub mod Outputs
pub mod Sizes
pub mod Exact
use quai_rust_sdk.Prelude.{
  ℕ, ◌+◌, ◌*◌, ◌==◌, leb, ltb, Bool, true, false, not, ◌&&◌, ◌||◌, List, [], ◌∷◌, length, get_or,
  Option, none, some, Result, ok, err, ◌>>=◌, ◌>>◌, reject_if, ok_or,
}
use quai_rust_sdk.Prelude.Words.{checked_add, checked_mul}
use quai_rust_sdk.Primitives.Bytes.{take, drop, from_be, from_be_bytes}
use quai_rust_sdk.Primitives.Hash.{bytes_eq, zero_hash}
use quai_rust_sdk.Primitives.Shard.{Zone, byte, zone_eq, from_byte}
use quai_rust_sdk.Primitives.Address.{
  Address, LedgerAddress, Ledger, quai, qi, ledger, zone, try_from, address_from_slice, address_eq,
}
use quai_rust_sdk.Consensus.Error.{
  TransactionError, too_large, invalid_field, invalid_scope, or_invalid_scope,
}
use quai_rust_sdk.Consensus.Denomination.{Denomination}
use quai_rust_sdk.Consensus.OutPoints.{OutPoint, contains}

pub data QiMode : Type 0 where
  ordinary conversion wrapping : QiMode

pub record QiInput (K : Type 0) : Type 0 where
  pub previous_output : OutPoint
  pub public_key : K

pub record QiOutput : Type 0 where
  pub address : Address
  pub denomination : Denomination

-- The chain identity is a U256; `payload` is the field `data`, of bytes.
pub record QiTransaction (K : Type 0) : Type 0 where
  pub chain_id : ℕ
  pub inputs : List (QiInput K)
  pub outputs : List QiOutput
  pub payload : List ℕ

abbrev pub max_transaction_bytes : ℕ
max_transaction_bytes = 1024 * 1024

abbrev pub max_transaction_messages : ℕ
max_transaction_messages = 16384

abbrev pub is_ordinary : QiMode → Bool
is_ordinary ordinary = true
is_ordinary _ = false

-- The slippage of a conversion, in ten-thousandths.
pub record ConversionSlippage : Type 0 where
  pub value : ℕ

unfoldable pub new_slippage : ℕ → Result TransactionError ConversionSlippage
new_slippage value =
    reject_if (not (leb 30 value && leb value 9000)) (invalid_field "conversion slippage")
    >> ok (record { value = value })

-- `n * 3 + m + 3` on a 64-bit usize.
unfoldable pub count_messages : ℕ → ℕ → Option ℕ
count_messages n m = elim (checked_mul 64 n 3) [
  | none ↦ none
  | some triple ↦ elim (checked_add 64 triple m) [
    | none ↦ none
    | some total ↦ checked_add 64 total 3
  ]
]

unfoldable pub qi_from_slice : List ℕ → Result TransactionError LedgerAddress
unfolding address_from_slice try_from
qi_from_slice slice =
    or_invalid_scope (address_from_slice slice) >>= λ a. or_invalid_scope (try_from qi a)

unfoldable pub quai_from_slice : List ℕ → Result TransactionError LedgerAddress
unfolding address_from_slice try_from
quai_from_slice slice =
    or_invalid_scope (address_from_slice slice) >>= λ a. or_invalid_scope (try_from quai a)

-- What a mode asks of the chain and the data.
unfoldable pub check_mode : QiMode → ℕ → List ℕ → Zone → Result TransactionError (Unit {0})
unfolding new_slippage qi_from_slice quai_from_slice from_be
check_mode ordinary chain_id data_bytes origin = ok tt
check_mode wrapping chain_id data_bytes origin = quai_from_slice data_bytes >>= λ owner.
    reject_if (chain_id == 0 || not (zone_eq owner.zone origin)) invalid_scope
check_mode conversion chain_id data_bytes origin =
    reject_if (chain_id == 0 || not (length data_bytes == 22))
      (invalid_field "conversion chain or data")
    >> (new_slippage (from_be_bytes (take 2 data_bytes)) >>= λ _.
        qi_from_slice (drop 2 data_bytes) >>= λ refund.
        reject_if (not (zone_eq refund.zone origin)) invalid_scope)

unfoldable pub contains_address : List Address → Address → Bool
contains_address [] a = false
contains_address (b ∷ bs) a = address_eq b a || contains_address bs a

-- Another destination was seen before.
abbrev pub is_other : Option Address → Address → Bool
is_other none a = false
is_other (some destination) a = not (address_eq destination a)

-- One round of the loop over the outputs, at an output's address with its zone and ledger: the
-- addresses and the destination behind it.
unfoldable pub check_output :
    QiMode
    → Zone
    → List Address
    → Option Address
    → Address
    → Zone
    → Ledger
    → Result TransactionError (List Address × Option Address)
unfolding contains_address
check_output mode origin addresses destination a z quai =
    reject_if (is_ordinary mode) (invalid_field "conversion requires explicit builder")
    >> (reject_if (not (zone_eq z origin) || is_other destination a) invalid_scope
        >> ok (addresses, some a))
check_output mode origin addresses destination a z qi =
    reject_if (not (is_ordinary mode) && not (zone_eq z origin)) invalid_scope
    >> (reject_if (contains_address addresses a) (invalid_field "reused output address")
        >> ok (a ∷ addresses, destination))

-- The loop, which answers the destination of the conversion.
unfoldable pub check_outputs :
    QiMode
    → Zone
    → List Address
    → Option Address
    → List QiOutput
    → Result TransactionError (Option Address)
unfolding ledger zone check_output
check_outputs mode origin addresses destination [] = ok destination
check_outputs mode origin addresses destination (o ∷ os) =
    or_invalid_scope (zone o.address) >>= λ z.
    check_output mode origin addresses destination o.address z (ledger o.address)
    >>= λ (seen, target). check_outputs mode origin seen target os

abbrev pub is_none : Option Address → Bool
is_none none = true
is_none (some _) = false

module _ {K : Type 0} where
  -- The checks of the sizes.
  unfoldable pub check_sizes : QiTransaction K → Result TransactionError (Unit {0})
  unfolding count_messages
  check_sizes tx =
      reject_if (length tx.inputs == 0 || length tx.outputs == 0)
        (invalid_field "empty inputs or outputs")
      >> (ok_or (count_messages (length tx.inputs) (length tx.outputs)) too_large >>= λ messages.
          reject_if
            (ltb max_transaction_messages messages
              || (ltb 65535 (length tx.inputs)
                  || (ltb 65535 (length tx.outputs)
                      || ltb max_transaction_bytes (length tx.payload))))
            too_large)

  -- `inputs[0].previous_output.transaction_hash`, of a list that is not empty.
  abbrev pub first_hash : List (QiInput K) → List ℕ
  first_hash [] = []
  first_hash (i ∷ is) = i.previous_output.transaction_hash

module _ {K : Type 0} (key_address : K → Address) where
  -- The loop over the inputs, which answers the addresses of their keys.
  unfoldable pub check_inputs :
      Zone
      → List OutPoint
      → List Address
      → List (QiInput K)
      → Result TransactionError (List Address)
  unfolding contains try_from byte zone_eq
  check_inputs origin seen addresses [] = ok addresses
  check_inputs origin seen addresses (i ∷ is) =
      let point = i.previous_output in
      let hash = point.transaction_hash in
      reject_if (contains seen point) (invalid_field "duplicate outpoint")
      >> (or_invalid_scope (try_from qi (key_address i.public_key)) >>= λ owner.
          reject_if
            (not (get_or hash 2 0 == byte origin)
              || (bytes_eq hash zero_hash || not (zone_eq owner.zone origin)))
            invalid_scope
          >> check_inputs origin (point ∷ seen) (owner.address ∷ addresses) is)

  unfoldable pub validate_for : QiMode → QiTransaction K → Result TransactionError Zone
  unfolding from_byte check_sizes check_mode check_inputs check_outputs
  validate_for mode tx =
      check_sizes tx
      >> (or_invalid_scope (from_byte (get_or (first_hash tx.inputs) 2 0)) >>= λ origin.
          check_mode mode tx.chain_id tx.payload origin
          >> (check_inputs origin [] [] tx.inputs >>= λ addresses.
              check_outputs mode origin addresses none tx.outputs >>= λ destination.
              reject_if (not (is_ordinary mode) && is_none destination)
                (invalid_field "missing conversion output")
              >> ok origin))
