-- ===== src/Primitives/Address.antt =====
-- Addresses and their ledger and zone (crates/quai-primitives/src/address.rs).
pub mod Scope
use Prim.Native.Nat.{bit_and}
use quai_rust_sdk.Prelude.{
  ℕ, Bool, true, false, List, length, get_or, ◌==◌, if◌then◌else◌, Result, ok, err,
}
use quai_rust_sdk.Primitives.Hash.{bytes_eq}
use quai_rust_sdk.Primitives.Shard.{Zone, ShardError, from_byte}

pub data Ledger : Type 0 where
  quai qi : Ledger

pub data AddressError : Type 0 where
  invalid_length invalid_hex invalid_checksum : AddressError
  invalid_zone : ShardError → AddressError
  wrong_ledger : Ledger → Ledger → AddressError

-- Twenty bytes.
pub record Address : Type 0 where
  pub bytes : List ℕ

unfoldable pub ledger : Address → Ledger
ledger a = if bit_and (get_or a.bytes 1 0) 0x80 == 0 then quai else qi

unfoldable pub zone : Address → Result ShardError Zone
unfolding from_byte
zone a = from_byte (get_or a.bytes 0 0)

-- `QuaiAddress` and `QiAddress`, which one macro declares.
pub record LedgerAddress : Type 0 where
  pub address : Address
  pub zone : Zone

abbrev pub ledger_eq : Ledger → Ledger → Bool
ledger_eq quai quai = true
ledger_eq qi qi = true
ledger_eq _ _ = false

-- The macro's `try_from` at the ledger `expected`, after the zone was decoded.
unfoldable pub with_zone :
    Ledger → Address → Result ShardError Zone → Result AddressError LedgerAddress
unfolding ledger
with_zone expected a (err e) = err (invalid_zone e)
with_zone expected a (ok z) =
    if ledger_eq (ledger a) expected
    then ok (record { address = a; zone = z })
    else err (wrong_ledger expected (ledger a))

unfoldable pub try_from : Ledger → Address → Result AddressError LedgerAddress
unfolding zone with_zone
try_from expected a = with_zone expected a (zone a)

-- `Address::try_from(&[u8])`.
unfoldable pub address_from_slice : List ℕ → Result AddressError Address
address_from_slice value =
    if length value == 20 then ok (record { bytes = value }) else err invalid_length

-- The derived equality.
abbrev pub address_eq : Address → Address → Bool
address_eq a b = bytes_eq a.bytes b.bytes
