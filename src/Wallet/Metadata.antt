-- ===== src/Wallet/Metadata.antt =====
-- Public key origins and storage errors (crates/quai-wallet/src/metadata.rs), and the account
-- that addresses are derived from (src/hd.rs). Child derivation is elliptic-curve code, so an
-- account carries it as a function.
use quai_rust_sdk.Prelude.{ℕ, Bool, List, Option, none, some, Result, ok, err}
use quai_rust_sdk.Primitives.Address.{Address}

pub data StorageError : Type 0 where
  database schema invalid stale_snapshot conflict observation_raced : StorageError
  cancelled derivation_exhausted transition overflow limit_reached : StorageError

pub data CoinType : Type 0 where
  quai qi : CoinType

pub data KeyOrigin : Type 0 where
  imported_public : KeyOrigin
  bip44 : CoinType → ℕ → Bool → ℕ → KeyOrigin

pub record PublicAddress : Type 0 where
  pub address : Address
  pub public_key : List ℕ
  pub origin : KeyOrigin

-- `child` is `derive_address`: the address and compressed key of a child, if it exists.
pub record AccountPublic : Type 0 where
  pub coin : CoinType
  pub account : ℕ
  pub child : Bool → ℕ → Option (Address × List ℕ)

abbrev from_child :
    AccountPublic → Bool → ℕ → Option (Address × List ℕ) → Result StorageError PublicAddress
from_child account change index none = err invalid
from_child account change index (some (address, key)) = ok (record {
  address = address;
  public_key = key;
  origin = bip44 account.coin account.account change index;
})

unfoldable pub derive : AccountPublic → Bool → ℕ → Result StorageError PublicAddress
derive account change index = from_child account change index (account.child change index)
