-- ===== src/Provider/HeadTracker/State.antt =====
-- The persisted form of the cursor (crates/quai-provider/src/head_tracker/state.rs).
-- A slice of the bytes is a `take` of a `drop`.
pub mod Anchors
pub mod RoundTrip
pub mod Sound
use quai_rust_sdk.Prelude.{
  ℕ, zero, suc, ◌+◌, ◌*◌, ◌/◌, ◌%◌, ◌^◌, Bool, true, false, not, ◌&&◌, ◌||◌, ◌==◌, leb, ltb, List,
  [], ◌∷◌, ◌++◌, length, get_or, Option, none, some, Result, ok, err, ◌>>=◌, ◌>>◌, reject_if,
}
unfoldable pub use quai_rust_sdk.Primitives.Bytes.{take, drop, to_be_bytes, from_be, from_be_bytes}
use quai_rust_sdk.Primitives.Hash.{Hash, bytes_eq, zero_hash}
use quai_rust_sdk.Primitives.Shard.{Zone, byte}
use quai_rust_sdk.Provider.Types.{ProviderError, invalid_request, BlockReference}
use quai_rust_sdk.Provider.HeadTracker.{HeadTracker, new, is_between, contains_hash}

-- "QHEAD001"
abbrev pub magic : List ℕ
magic = 0x51 ∷ 0x48 ∷ 0x45 ∷ 0x41 ∷ 0x44 ∷ 0x30 ∷ 0x30 ∷ 0x31 ∷ []

abbrev pub header_size : ℕ
header_size = 47

abbrev pub max_head_state_bytes : ℕ
max_head_state_bytes = header_size + 40 * 4096

-- The anchors oldest first, in front of `after`.
unfoldable pub onto : List BlockReference → List BlockReference → List BlockReference
onto [] after = after
onto (a ∷ rest) after = onto rest (a ∷ after)

unfoldable pub export_anchors : List BlockReference → List ℕ
unfolding to_be_bytes
export_anchors [] = []
export_anchors (a ∷ rest) = to_be_bytes 8 a.number ++ (a.hash ++ export_anchors rest)

unfoldable pub export_state : HeadTracker → List ℕ
unfolding to_be_bytes onto export_anchors
export_state t =
    magic
    ++ (byte t.zone
        ∷ (t.genesis
            ++ (to_be_bytes 2 t.retain
                ++ (to_be_bytes 2 t.page_size
                    ++ (to_be_bytes 2 (length (t.newest ∷ t.older))
                        ++ export_anchors (onto (t.newest ∷ t.older) []))))))

-- `previous.is_some_and(|old| old.checked_add(1) != Some(number))`
abbrev pub breaks : List BlockReference → ℕ → Bool
breaks [] n = false
breaks (a ∷ rest) n = not (a.number + 1 == n && ltb (a.number + 1) (2 ^ 64))

abbrev pub is_bad_anchor : Hash → List BlockReference → BlockReference → Bool
is_bad_anchor genesis anchors a =
    bytes_eq a.hash zero_hash
    || (contains_hash anchors a.hash
        || ((a.number == 0 && not (bytes_eq a.hash genesis)) || breaks anchors a.number))

abbrev pub anchor_of : List ℕ → BlockReference
anchor_of entry = record { number = from_be_bytes (take 8 entry); hash = drop 8 entry }

-- The loop over `count` entries of forty bytes, with the anchors before them, newest first.
unfoldable pub restore :
    Hash → ℕ → List ℕ → List BlockReference → Result ProviderError (List BlockReference)
unfolding from_be
restore genesis zero bytes anchors = ok anchors
restore genesis (suc count) bytes anchors = do
  reject_if (is_bad_anchor genesis anchors (anchor_of (take 40 bytes))) invalid_request
  restore genesis count (drop 40 bytes) (anchor_of (take 40 bytes) ∷ anchors)

-- The front of the deque, where there is one.
unfoldable pub front : BlockReference → List BlockReference → BlockReference
front a [] = a
front a (b ∷ rest) = front b rest

abbrev pub with_anchors :
    Zone → Hash → ℕ → ℕ → List BlockReference → Result ProviderError HeadTracker
with_anchors zone genesis retain page_size [] = err invalid_request
with_anchors zone genesis retain page_size (a ∷ rest) = do
  result ← new zone genesis (front a rest) retain page_size
  ok (record result { newest = a; older = rest })

abbrev pub is_bad_state : List ℕ → Zone → Hash → Bool
is_bad_state bytes zone genesis =
    not (is_between (header_size + 40) max_head_state_bytes (length bytes))
    || (not (bytes_eq (take 8 bytes) magic)
        || (not (get_or bytes 8 0 == byte zone) || not (bytes_eq (take 32 (drop 9 bytes)) genesis)))

abbrev pub is_bad_shape : ℕ → ℕ → ℕ → ℕ → Bool
is_bad_shape size retain page_size count =
    not (is_between 2 4096 retain)
    || (not (is_between 1 256 page_size)
        || (count == 0 || (ltb retain count || not (size == header_size + count * 40))))

unfoldable pub from_state : List ℕ → Zone → Hash → Result ProviderError HeadTracker
unfolding from_be restore front new
from_state bytes zone genesis = do
  reject_if (is_bad_state bytes zone genesis) invalid_request
  let retain = from_be_bytes (take 2 (drop 41 bytes))
  let page_size = from_be_bytes (take 2 (drop 43 bytes))
  let count = from_be_bytes (take 2 (drop 45 bytes))
  reject_if (is_bad_shape (length bytes) retain page_size count) invalid_request
  anchors ← restore genesis count (drop header_size bytes) []
  with_anchors zone genesis retain page_size anchors
