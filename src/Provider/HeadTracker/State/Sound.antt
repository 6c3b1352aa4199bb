-- ===== src/Provider/HeadTracker/State/Sound.antt =====
-- Whatever bytes are read, the cursor is a valid one (crates/quai-provider/src/head_tracker/state.rs).
use quai_rust_sdk.Prelude.{
  ℕ, zero, suc, ◌+◌, ◌≤◌, ◌≡◌, ap, subst, Bool, true, false, ◌||◌, not, ◌&&◌, ◌==◌, List, [], ◌∷◌,
  length, arith, ok, ok-injective, >>=-eq-ok, reject_if-ok,
}
use quai_rust_sdk.Primitives.Hash.{Hash, bytes_eq, bytes_eq_sound, zero_hash}
use quai_rust_sdk.Primitives.Shard.{Zone}
use quai_rust_sdk.Provider.Types.{invalid_request, BlockReference}
use quai_rust_sdk.Provider.HeadTracker.{HeadTracker, new, contains_hash}
use quai_rust_sdk.Provider.HeadTracker.Chain.{IsAbove, IsChain}
use quai_rust_sdk.Provider.HeadTracker.Poll.{IsTracker, new-IsTracker}
use quai_rust_sdk.Provider.HeadTracker.State.{
  take, drop, from_be_bytes, is_bad_anchor, breaks, anchor_of, restore, front, with_anchors,
  is_bad_state, is_bad_shape, from_state,
}

follows_lem :
    (a : BlockReference) (after : List BlockReference)
    → breaks after a.number ≡ false
    → IsAbove a after
follows_lem a [] h = tt
follows_lem a (b ∷ after) h = ground arith

-- The checks of one entry.
entry-IsChain :
    (genesis : Hash) (a : BlockReference) (after : List BlockReference)
    → is_bad_anchor genesis after a ≡ false
    → IsChain genesis after
    → IsChain genesis (a ∷ after)
entry-IsChain genesis a after h chain =
    let (nonzero, fresh, at_zero, next) =
      each (bytes_eq a.hash zero_hash) (contains_hash after a.hash)
        (a.number == 0 && not (bytes_eq a.hash genesis)) (breaks after a.number) h in
    (
      (nonzero, λ e. bytes_eq_sound a.hash genesis (trusted e at_zero)),
      follows_lem a after next,
      fresh,
      chain,
    )
  where
    each :
        (p q r s : Bool)
        → (p || (q || (r || s))) ≡ false
        → (p ≡ false) × (q ≡ false) × (r ≡ false) × (s ≡ false)
    each p q r s h = ground arith

    trusted :
        a.number ≡ 0
        → (a.number == 0 && not (bytes_eq a.hash genesis)) ≡ false
        → bytes_eq a.hash genesis ≡ true
    trusted e h = ground arith

restore-IsChain :
    (genesis : Hash) (count : ℕ) (bytes : List ℕ) (after : List BlockReference)
    {anchors : List BlockReference}
    → IsChain genesis after
    → restore genesis count bytes after ≡ ok anchors
    → IsChain genesis anchors × (length anchors ≡ count + length after)
unfolding restore
restore-IsChain genesis zero bytes after chain h =
    subst (λ anchors. IsChain genesis anchors × (length anchors ≡ 0 + length after))
      (ok-injective h) (chain, omega arith)
restore-IsChain genesis (suc count) bytes after {anchors} chain h =
    let (good, h₁) =
      reject_if-ok (is_bad_anchor genesis after (anchor_of (take 40 bytes))) invalid_request _ h in
    let (longer, size) =
      restore-IsChain genesis count (drop 40 bytes) (anchor_of (take 40 bytes) ∷ after)
        {anchors = anchors} (entry-IsChain genesis (anchor_of (take 40 bytes)) after good chain)
        h₁ in
    (longer, omega (arith, size))

new_settings :
    (zone : Zone) (genesis : Hash) (a : BlockReference) (retain page_size : ℕ) {t : HeadTracker}
    → new zone genesis a retain page_size ≡ ok t
    → (genesis ≡ t.genesis) × (retain ≡ t.retain)
unfolding new
new_settings zone genesis a retain page_size h =
    let (_, h₁) = reject_if-ok _ invalid_request _ h in
    (ap (λ t. t.genesis) (ok-injective h₁), ap (λ t. t.retain) (ok-injective h₁))

-- The constructor's bounds, with the anchors in place.
with_anchors-IsTracker :
    (zone : Zone) (genesis : Hash) (retain page_size : ℕ) (anchors : List BlockReference)
    {t : HeadTracker}
    → IsChain genesis anchors
    → length anchors ≤ retain
    → with_anchors zone genesis retain page_size anchors ≡ ok t
    → IsTracker t
with_anchors-IsTracker zone genesis retain page_size [] chain few h = cc
with_anchors-IsTracker zone genesis retain page_size (a ∷ rest) {t} chain few h =
    let (result, making, h₁) = >>=-eq-ok (new zone genesis (front a rest) retain page_size) _ h in
    let valid = new-IsTracker zone genesis (front a rest) retain page_size {t = result} making in
    let (same_genesis, same_retain) =
      new_settings zone genesis (front a rest) retain page_size {t = result} making in
    subst IsTracker (ok-injective h₁) (record {
      identity = valid.identity;
      retain_low = valid.retain_low;
      retain_high = valid.retain_high;
      page_low = valid.page_low;
      page_high = valid.page_high;
      few = omega arith;
      chain = subst (λ g. IsChain g (a ∷ rest)) same_genesis chain;
    })

few_anchors :
    (size retain page_size n : ℕ) → is_bad_shape size retain page_size n ≡ false → n ≤ retain
few_anchors size retain page_size n h = ground arith

-- Bytes that are accepted give a cursor that keeps the invariant.
pub from_state-IsTracker :
    (bytes : List ℕ) (zone : Zone) (genesis : Hash) {t : HeadTracker}
    → from_state bytes zone genesis ≡ ok t
    → IsTracker t
unfolding from_state
from_state-IsTracker bytes zone genesis {t} h =
    let (_, h₁) = reject_if-ok (is_bad_state bytes zone genesis) invalid_request _ h in
    let (shape, h₂) =
      reject_if-ok
        (is_bad_shape (length bytes) (from_be_bytes (take 2 (drop 41 bytes)))
          (from_be_bytes (take 2 (drop 43 bytes))) (from_be_bytes (take 2 (drop 45 bytes))))
        invalid_request _ h₁ in
    let (anchors, restoring, h₃) =
      >>=-eq-ok (restore genesis (from_be_bytes (take 2 (drop 45 bytes))) (drop 47 bytes) []) _
        h₂ in
    let (chain, size) =
      restore-IsChain genesis (from_be_bytes (take 2 (drop 45 bytes))) (drop 47 bytes) []
        {anchors = anchors} tt restoring in
    with_anchors-IsTracker zone genesis (from_be_bytes (take 2 (drop 41 bytes)))
      (from_be_bytes (take 2 (drop 43 bytes))) anchors {t = t} chain
      (omega (
        arith,
        size,
        few_anchors (length bytes) (from_be_bytes (take 2 (drop 41 bytes)))
            (from_be_bytes (take 2 (drop 43 bytes))) (from_be_bytes (take 2 (drop 45 bytes))) shape,
      ))
      h₃
