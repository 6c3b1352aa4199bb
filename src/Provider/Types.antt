-- ===== src/Provider/Types.antt =====
-- Headers, references and errors of the provider (crates/quai-provider/src/lib.rs and types.rs).
use quai_rust_sdk.Prelude.{
  ℕ, Bool, false, not, ◌==◌, List, Option, none, some, Result, ok, ◌>>=◌, ◌>>◌, reject_if,
}
use quai_rust_sdk.Primitives.Hash.{Hash}
use quai_rust_sdk.Primitives.Shard.{Zone, zone_eq}

-- The errors that replay raises; `read_failed` stands for the others, which reads pass on.
pub data ProviderError : Type 0 where
  replay_history_unavailable invalid_request genesis_mismatch : ProviderError
  observation_changed invalid_result : ProviderError
  read_failed : ℕ → ProviderError

pub data BlockTag : Type 0 where
  latest pending : BlockTag
  number : ℕ → BlockTag

pub record BlockReference : Type 0 where
  pub number : ℕ
  pub hash : Hash

-- The fields of a header that replay reads.
pub record ZoneHeader : Type 0 where
  pub hash : Hash
  pub parent_hash : Hash
  pub number : ℕ
  pub zone : Zone

abbrev pub is_other_number : BlockTag → ZoneHeader → Bool
is_other_number latest header = false
is_other_number pending header = false
is_other_number (number n) header = not (n == header.number)

-- The node as a poll sees it: the answers to its batches, in their order, and to its single reads.
-- A raw answer is decoded by JSON code: to no header where it is null, or to a header.
pub record Node (Value : Type 0) : Type 0 where
  pub header_values : ℕ → List BlockTag → List (Result ProviderError Value)
  pub read : ℕ → Result ProviderError Value
  pub decode : Value → Result ProviderError (Option ZoneHeader)
  pub genesis_hash : Value → Result ProviderError Hash

module _ {Value : Type 0} (node : Node Value) where
  abbrev pub check_header :
      Zone → BlockTag → Option ZoneHeader → Result ProviderError (Option ZoneHeader)
  check_header zone tag none = ok none
  check_header zone tag (some header) = do
    reject_if (not (zone_eq header.zone zone)) invalid_result
    reject_if (is_other_number tag header) invalid_result
    ok (some header)

  unfoldable pub parse_zone_header :
      Zone → BlockTag → Value → Result ProviderError (Option ZoneHeader)
  parse_zone_header zone tag value = node.decode value >>= check_header zone tag

  unfoldable pub header_at : Zone → ℕ → Result ProviderError (Option ZoneHeader)
  unfolding parse_zone_header
  header_at zone n = node.read n >>= parse_zone_header zone (number n)
