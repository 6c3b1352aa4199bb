-- ===== src/Provider/HeadTracker/Reach.antt =====
-- The cursors that a program can hold, and what their polls do (crates/quai-provider,
-- src/head_tracker.rs and src/head_tracker/state.rs).
use quai_rust_sdk.Prelude.{ℕ, ◌≡◌, List, ok}
use quai_rust_sdk.Primitives.Hash.{Hash}
use quai_rust_sdk.Primitives.Shard.{Zone}
use quai_rust_sdk.Provider.Types.{BlockReference, ZoneHeader, Node}
use quai_rust_sdk.Provider.HeadTracker.{HeadTracker, HeadUpdate, new, read_tip, poll}
use quai_rust_sdk.Provider.HeadTracker.Answers.{IsFirst}
use quai_rust_sdk.Provider.HeadTracker.Poll.{IsTracker, IsUpdate, new-IsTracker, poll_lem}
use quai_rust_sdk.Provider.HeadTracker.State.{from_state}
use quai_rust_sdk.Provider.HeadTracker.State.Sound.{from_state-IsTracker}

-- The cursors that the program can hold: new ones, those read from bytes, and those behind a
-- successful poll of any node.
pub data Reached : HeadTracker → Type 1 where
  started :
      (zone : Zone) (genesis : Hash) (checkpoint : BlockReference) (retain page_size : ℕ)
      {t : HeadTracker}
      → new zone genesis checkpoint retain page_size ≡ ok t
      → Reached t
  restored :
      (bytes : List ℕ) (zone : Zone) (genesis : Hash) {t : HeadTracker}
      → from_state bytes zone genesis ≡ ok t
      → Reached t
  polled :
      {Value : Type 0} (node : Node Value) {t t' : HeadTracker} {u : HeadUpdate}
      → Reached t
      → poll node t ≡ ok (t', u)
      → Reached t'

-- Every cursor that the program can hold keeps its bounds, and its anchors are at most `retain`
-- blocks of consecutive heights with distinct hashes, the trusted one at height zero.
pub Reached-IsTracker : {t : HeadTracker} → Reached t → IsTracker t
Reached-IsTracker (started zone genesis checkpoint retain page_size {t} h) =
    new-IsTracker zone genesis checkpoint retain page_size {t = t} h
Reached-IsTracker (restored bytes zone genesis {t} h) =
    from_state-IsTracker bytes zone genesis {t = t} h
Reached-IsTracker (polled node {t} {t'} {u} r h) =
    (poll_lem node t {t' = t'} {u = u} (Reached-IsTracker r) h).5

-- A successful poll of a reached cursor reads the trusted genesis, the tip and the value at the
-- height of its newest anchor in one batch, and splits the anchors at a base at or below that tip. The
-- node's hash at the height of the base (the trusted one at zero) is that of the base, and every anchor
-- above the base is removed, since it is above the tip or the node's hash at its height is another. To
-- the base it adds at most a page of headers, which the node answered for their numbers in one batch,
-- each with the one before as its parent and at the next height; behind a page that is not empty, the
-- node answered for both of its ends again, with the same hashes. The new anchors are the newest
-- `retain` of that chain, and a cursor that caught up stands at the height of the tip.
pub poll-IsUpdate :
    {Value : Type 0} (node : Node Value) {t t' : HeadTracker} {u : HeadUpdate}
    → Reached t
    → poll node t ≡ ok (t', u)
    → (tip : ZoneHeader) × (newest : Value) × (read_tip node t ≡ ok (tip, newest))
      × IsFirst node t tip newest
      × IsUpdate node newest t t' u tip.number
poll-IsUpdate node {t} {t'} {u} r h =
    let (tip, newest, reading, first, updated, _) =
      poll_lem node t {t' = t'} {u = u} (Reached-IsTracker r) h in
    (tip, newest, reading, first, updated)
