-- ===== src/Provider/HeadTracker.antt =====
-- Bounded canonical head replay (crates/quai-provider/src/head_tracker.rs).
-- The deque of anchors is kept newest first, and the newest is a field of its own, since there always
-- is one. Block numbers above 2 ^ 63 cannot be read, so `base.number + 1` does not wrap.
pub mod Chain
pub mod Seen
pub mod Answers
pub mod Replay
pub mod Poll
pub mod State
pub mod Reach
use quai_rust_sdk.Prelude.{
  ℕ, zero, suc, ◌+◌, ◌-◌, ◌^◌, min, Bool, true, false, not, ◌&&◌, ◌||◌, ◌==◌, leb, ltb,
  if◌then◌else◌, List, [], ◌∷◌, ◌++◌, length, Option, none, some, Result, ok, err, ◌>>=◌, ◌>>◌,
  reject_if, ok_or,
}
use quai_rust_sdk.Primitives.Hash.{Hash, bytes_eq, zero_hash}
use quai_rust_sdk.Primitives.Shard.{Zone}
use quai_rust_sdk.Provider.Types.{
  ProviderError, replay_history_unavailable, invalid_request, genesis_mismatch, observation_changed,
  invalid_result, BlockTag, latest, number, BlockReference, ZoneHeader, Node, parse_zone_header,
  header_at,
}

pub record HeadUpdate : Type 0 where
  pub removed : List BlockReference
  pub added : List ZoneHeader
  pub checkpoint : BlockReference
  pub caught_up : Bool

pub record HeadTracker : Type 0 where
  pub zone : Zone
  pub genesis : Hash
  pub newest : BlockReference
  pub older : List BlockReference
  pub retain : ℕ
  pub page_size : ℕ

abbrev pub is_between : ℕ → ℕ → ℕ → Bool
is_between low high n = leb low n && leb n high

abbrev pub is_refused : Hash → BlockReference → ℕ → ℕ → Bool
is_refused genesis checkpoint retain page_size =
    bytes_eq genesis zero_hash
    || (bytes_eq checkpoint.hash zero_hash
        || ((checkpoint.number == 0 && not (bytes_eq checkpoint.hash genesis))
            || (not (is_between 2 4096 retain) || not (is_between 1 256 page_size))))

unfoldable pub new : Zone → Hash → BlockReference → ℕ → ℕ → Result ProviderError HeadTracker
new zone genesis checkpoint retain page_size = do
  reject_if (is_refused genesis checkpoint retain page_size) invalid_request
  ok (record {
    zone = zone;
    genesis = genesis;
    newest = checkpoint;
    older = [];
    retain = retain;
    page_size = page_size;
  })

-- The anchors that a poll gives up, newest first, and those it keeps.
pub record Common : Type 0 where
  pub removed : List BlockReference
  pub base : BlockReference
  pub older : List BlockReference

abbrev pub reference : ZoneHeader → BlockReference
reference header = record { number = header.number; hash = header.hash }

abbrev pub same_reference : BlockReference → BlockReference → Bool
same_reference a b = a.number == b.number && bytes_eq a.hash b.hash

unfoldable pub contains_hash : List BlockReference → Hash → Bool
contains_hash [] hash = false
contains_hash (a ∷ rest) hash = bytes_eq a.hash hash || contains_hash rest hash

-- `BlockTag::Number(n)` for the `count` numbers behind `base`.
unfoldable pub tags : ℕ → ℕ → List BlockTag
tags base zero = []
tags base (suc count) = number (suc base) ∷ tags (suc base) count

unfoldable pub collect {ℓ} :
    {A : Type ℓ} → List (Result ProviderError A) → Result ProviderError (List A)
collect [] = ok []
collect (r ∷ rs) = do a ← r; rest ← collect rs; ok (a ∷ rest)

-- Block one is missing above the trusted genesis, or another block of the page is.
abbrev pub is_number_1 : BlockTag → Bool
is_number_1 (number n) = n == 1
is_number_1 _ = false

abbrev pub missing : ℕ → BlockTag → ProviderError
missing base tag =
    if base == 0 && is_number_1 tag then replay_history_unavailable else observation_changed

-- `anchors.extend(added)`, on the newest anchor and the older ones.
unfoldable pub extend :
    BlockReference → List BlockReference → List ZoneHeader → BlockReference × List BlockReference
extend newest older [] = (newest, older)
extend newest older (header ∷ headers) = extend (reference header) (newest ∷ older) headers

-- `pop_front` while there are more than `n`.
unfoldable pub keep : ℕ → List BlockReference → List BlockReference
keep zero anchors = []
keep (suc n) [] = []
keep (suc n) (anchor ∷ anchors) = anchor ∷ keep n anchors

module _ {Value : Type 0} (node : Node Value) (t : HeadTracker) where
  -- The hash that the node has at the height of an anchor.
  unfoldable pub actual_hash : Value → BlockReference → Result ProviderError Hash
  unfolding parse_zone_header header_at
  actual_hash newest_header anchor = elim (anchor.number == 0) [
    | true ↦ ok t.genesis
    | false ↦ do
      answer ←
          if same_reference anchor t.newest
          then parse_zone_header node t.zone (number anchor.number) newest_header
          else header_at node t.zone anchor.number
      header ← ok_or answer replay_history_unavailable
      ok header.hash
  ]

  -- The loop over the anchors, from the newest.
  unfoldable pub find_common : Value → ℕ → List BlockReference → Result ProviderError Common
  unfolding actual_hash
  find_common newest_header tip [] = err replay_history_unavailable
  find_common newest_header tip (anchor ∷ anchors) = elim (ltb tip anchor.number) [
    | true ↦ do
      rest ← find_common newest_header tip anchors
      ok (record rest { removed = anchor ∷ rest.removed })
    | false ↦ do
      actual ← actual_hash newest_header anchor
      elim (bytes_eq actual anchor.hash) [
        | true ↦ ok (record { removed = []; base = anchor; older = anchors })
        | false ↦ do
          rest ← find_common newest_header tip anchors
          ok (record rest { removed = anchor ∷ rest.removed })
      ]
  ]

  -- The page, header by header, on the chain `previous ∷ older`, whose hashes are `seen`.
  unfoldable pub link :
      ℕ
      → BlockReference
      → List BlockReference
      → List Value
      → List BlockTag
      → Result ProviderError (List ZoneHeader)
  unfolding parse_zone_header contains_hash
  link base previous older (value ∷ values) (tag ∷ tags) = do
    answer ← parse_zone_header node t.zone tag value
    header ← ok_or answer (missing base tag)
    reject_if
        (not (bytes_eq header.parent_hash previous.hash)
          || (bytes_eq header.hash zero_hash || contains_hash (previous ∷ older) header.hash))
        observation_changed
    headers ← link base (reference header) (previous ∷ older) values tags
    ok (header ∷ headers)
  link base previous older _ _ = ok []

  -- One end of the page, read again behind it.
  unfoldable pub check_end : BlockReference → Value → Result ProviderError (Unit {0})
  unfolding parse_zone_header
  check_end anchor value = elim (anchor.number == 0) [
    | true ↦ do
      hash ← node.genesis_hash value
      reject_if (not (bytes_eq hash anchor.hash)) observation_changed
    | false ↦ do
      answer ← parse_zone_header node t.zone (number anchor.number) value
      header ← ok_or answer observation_changed
      reject_if (not (bytes_eq header.hash anchor.hash)) observation_changed
  ]

  abbrev pub check_both :
      BlockReference → BlockReference → List Value → Result ProviderError (Unit {0})
  check_both base previous (v ∷ w ∷ []) = check_end base v >> check_end previous w
  check_both base previous _ = err invalid_result

  unfoldable pub check_ends :
      BlockReference → BlockReference → List ZoneHeader → Result ProviderError (Unit {0})
  unfolding collect check_end
  check_ends base previous [] = ok tt
  check_ends base previous (header ∷ headers) = do
    values ← collect (node.header_values 2 (number base.number ∷ number previous.number ∷ []))
    check_both base previous values

  -- The first batch: the genesis is checked before a later error of the batch counts.
  abbrev pub tip_and_newest : List Value → Result ProviderError (Value × Value)
  tip_and_newest (tip ∷ newest ∷ []) = ok (tip, newest)
  tip_and_newest _ = err invalid_result

  abbrev pub first_answers :
      List (Result ProviderError Value) → Result ProviderError (Value × Value)
  first_answers [] = err invalid_result
  first_answers (first ∷ rest) = do
    genesis ← first
    hash ← node.genesis_hash genesis
    reject_if (not (bytes_eq hash t.genesis)) genesis_mismatch
    values ← collect rest
    tip_and_newest values

  unfoldable pub read_tip : Result ProviderError (ZoneHeader × Value)
  unfolding collect parse_zone_header
  read_tip = do
    (tip, newest) ←
        first_answers (node.header_values 0 (number 0 ∷ latest ∷ number t.newest.number ∷ []))
    answer ← parse_zone_header node t.zone latest tip
    header ← ok_or answer replay_history_unavailable
    ok (header, newest)

  -- The page above the base, up to `end`.
  unfoldable pub read_page : Common → ℕ → Result ProviderError (List ZoneHeader)
  unfolding collect tags link
  read_page common end = do
    let numbers = tags common.base.number (end - common.base.number)
    values ← if length numbers == 0 then ok [] else collect (node.header_values 1 numbers)
    reject_if (not (length values == length numbers)) invalid_result
    link common.base.number common.base common.older values numbers

  abbrev pub page_end : Common → ℕ → ℕ
  page_end common tip = min (min (common.base.number + t.page_size) (2 ^ 64 - 1)) tip

  -- The tracker behind the poll, and the update. An error is no new tracker.
  unfoldable pub poll : Result ProviderError (HeadTracker × HeadUpdate)
  unfolding read_tip find_common read_page check_ends extend keep
  poll = do
    (tip, newest_header) ← read_tip
    common ← find_common newest_header tip.number (t.newest ∷ t.older)
    let end = page_end common tip.number
    added ← read_page common end
    let (previous, older) = extend common.base common.older added
    check_ends common.base previous added
    ok (
      record t { newest = previous; older = keep (t.retain - 1) older },
      record {
        removed = common.removed;
        added = added;
        checkpoint = previous;
        caught_up = end == tip.number;
      },
    )
