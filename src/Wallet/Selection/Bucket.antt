-- ===== src/Wallet/Selection/Bucket.antt =====
-- Validation of a request and of the snapshot, and the denomination buckets (selection.rs).
-- `seen` is the hash set of outpoints as a list; the buckets are a list of fifteen lists.
pub mod Coins
pub mod Keeps
use quai_rust_sdk.Prelude.{
  ℕ, ◌+◌, Bool, true, false, not, ◌&&◌, ◌||◌, List, [], ◌∷◌, ◌++◌, Option, none, some, leb, ltb,
  ◌==◌, if◌then◌else◌, length, get_or, set, replicate, Result, ok, err, ◌>>=◌, ◌>>◌, reject_if,
}
unfoldable pub use quai_rust_sdk.Consensus.OutPoints.{outpoint_eq, contains}
use quai_rust_sdk.Primitives.Hash.{bytes_eq}
use quai_rust_sdk.Primitives.Shard.{byte, zone_eq}
use quai_rust_sdk.Wallet.Selection.Types.{
  OutPoint, CandidateCoin, SelectionRequest, SelectionError, invalid_request, invalid_coin,
  limit_exceeded,
}

abbrev pub in_1_to_4096 : ℕ → Bool
in_1_to_4096 n = leb 1 n && leb n 4096

-- The scalar checks.
unfoldable pub validate_request : SelectionRequest → Result SelectionError (Unit {0})
validate_request request =
    reject_if
      (request.target == 0
        || (ltb request.max_fee request.fee
            || (not (in_1_to_4096 request.max_inputs) || not (in_1_to_4096 request.max_outputs))))
      invalid_request

-- A repeated outpoint, a hash whose third byte is not the owner's zone, or the zero hash.
unfoldable pub is_bad_coin : List OutPoint → CandidateCoin → Bool
unfolding contains
is_bad_coin seen coin =
    let hash = coin.outpoint.transaction_hash in
    contains seen coin.outpoint
    || (not (get_or hash 2 0 == byte coin.address.zone) || bytes_eq hash (replicate 32 0))

abbrev pub is_none_or : Option ℕ → (ℕ → Bool) → Bool
is_none_or none p = true
is_none_or (some a) p = p a

-- In the zone, not reserved, unlocked and not expired at the candidate height.
unfoldable pub is_eligible : SelectionRequest → CandidateCoin → Bool
is_eligible request coin =
    zone_eq coin.address.zone request.zone
    && (not coin.reserved
        && (leb coin.unlock_height request.candidate_height
            && is_none_or coin.expires_at (λ height. ltb request.candidate_height height)))

abbrev pub Buckets : Type 0
Buckets = List (List CandidateCoin)

abbrev pub no_buckets : Buckets
no_buckets = replicate 15 []

-- `buckets[index].push(coin)`
unfoldable pub push_coin : CandidateCoin → Buckets → Buckets
push_coin coin buckets =
    set buckets coin.denomination.index (get_or buckets coin.denomination.index [] ++ (coin ∷ []))

-- The loop over the snapshot.
unfoldable pub bucket_loop :
    SelectionRequest → List CandidateCoin → List OutPoint → Buckets → Result SelectionError Buckets
unfolding is_bad_coin is_eligible push_coin
bucket_loop request [] seen buckets = ok buckets
bucket_loop request (coin ∷ coins) seen buckets = do
  reject_if (is_bad_coin seen coin) invalid_coin
  bucket_loop request coins (coin.outpoint ∷ seen)
      (if is_eligible request coin then push_coin coin buckets else buckets)

unfoldable pub validate_and_bucket :
    List CandidateCoin → SelectionRequest → Result SelectionError Buckets
unfolding bucket_loop
validate_and_bucket coins request = do
  reject_if (ltb 100000 (length coins)) limit_exceeded
  bucket_loop request coins [] no_buckets
