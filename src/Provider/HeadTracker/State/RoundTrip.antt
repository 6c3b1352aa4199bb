-- ===== src/Provider/HeadTracker/State/RoundTrip.antt =====
-- The persisted cursor is read back as it was (crates/quai-provider/src/head_tracker/state.rs).
use quai_rust_sdk.Prelude.{
  ℕ, ◌+◌, ◌*◌, ◌≤◌, ◌<◌, ◌≡◌, refl, sym, ◌∙◌, ap, subst, Bool, true, false, ◌||◌, not, ◌&&◌, ◌==◌,
  List, [], ◌∷◌, ◌++◌, length, length-append, get_or, All, arith, ok, Result, ◌>>=◌, ◌>>◌,
  reject_if,
}
use quai_rust_sdk.Primitives.Hash.{Hash, bytes_eq, zero_hash}
use quai_rust_sdk.Primitives.Shard.{byte}
use quai_rust_sdk.Provider.Types.{ProviderError, invalid_request, BlockReference}
use quai_rust_sdk.Provider.HeadTracker.{HeadTracker, new, is_refused, is_between}
use quai_rust_sdk.Provider.HeadTracker.Chain.{IsAnchor, IsChain}
use quai_rust_sdk.Provider.HeadTracker.Poll.{IsTracker}
use quai_rust_sdk.Provider.HeadTracker.State.{
  magic, take, drop, to_be_bytes, from_be_bytes, onto, export_anchors, export_state, restore, front,
  with_anchors, is_bad_state, is_bad_shape, from_state,
}
use quai_rust_sdk.Primitives.Bytes.{
  take-append, length-to_be_bytes, from_be_bytes-to_be_bytes, drop_behind,
}
use quai_rust_sdk.Primitives.Hash.{bytes_eq_refl}
use quai_rust_sdk.Provider.HeadTracker.State.Anchors.{
  IsReference, trusted, restore_lem, front-IsAnchor, onto_twice, length-onto, All-onto,
  length-export_anchors,
}

-- The sizes that Rust's types give to a cursor.
pub record IsSized (t : HeadTracker) : Type 0 where
  pub genesis : length t.genesis ≡ 32
  pub anchors : All IsReference (t.newest ∷ t.older)

between : (low high n : ℕ) → low ≤ n → n ≤ high → is_between low high n ≡ true
between low high n h k = ground arith

good_shape_lem :
    (size retain page_size n : ℕ)
    → 2 ≤ retain
    → retain ≤ 4096
    → 1 ≤ page_size
    → page_size ≤ 256
    → 0 < n
    → n ≤ retain
    → size ≡ 47 + n * 40
    → is_bad_shape size retain page_size n ≡ false
good_shape_lem size retain page_size n a b c d e f g = ground arith

accepted_lem :
    (genesis : Hash) (a : BlockReference) (retain page_size : ℕ)
    → bytes_eq genesis zero_hash ≡ false
    → IsAnchor genesis a
    → is_between 2 4096 retain ≡ true
    → is_between 1 256 page_size ≡ true
    → is_refused genesis a retain page_size ≡ false
accepted_lem genesis a retain page_size identity anchor r p =
    all_false (bytes_eq genesis zero_hash) (bytes_eq a.hash zero_hash)
      (a.number == 0 && not (bytes_eq a.hash genesis)) (is_between 2 4096 retain)
      (is_between 1 256 page_size) identity anchor.0 (trusted genesis a anchor) r p
  where
    all_false :
        (b c d e f : Bool)
        → b ≡ false
        → c ≡ false
        → d ≡ false
        → e ≡ true
        → f ≡ true
        → (b || (c || (d || (not e || not f)))) ≡ false
    all_false b c d e f hb hc hd he hf = rw (hb, hc, hd, he, hf) refl

onto_nothing : (xs : List BlockReference) → onto [] xs ≡ xs
unfolding onto
onto_nothing xs = refl

append_nil : (xs : List BlockReference) → (xs ++ []) ≡ xs
append_nil [] = refl
append_nil (x ∷ xs) = ap (λ rest. x ∷ rest) (append_nil xs)

module _ (t : HeadTracker) (valid : IsTracker t) (sized : IsSized t) where
  -- The number of anchors, the anchors oldest first, and the bytes behind the genesis hash.
  abbrev count : ℕ
  count = length (t.newest ∷ t.older)

  abbrev oldest : List BlockReference
  oldest = onto (t.newest ∷ t.older) []

  abbrev behind : List ℕ
  behind =
      to_be_bytes 2 t.retain
      ++ (to_be_bytes 2 t.page_size ++ (to_be_bytes 2 count ++ export_anchors oldest))

  exported : export_state t ≡ magic ++ (byte t.zone ∷ (t.genesis ++ behind))
  unfolding export_state
  exported = refl

  abbrev bytes : List ℕ
  bytes = magic ++ (byte t.zone ∷ (t.genesis ++ behind))

  read_count : length oldest ≡ count
  read_count = length-onto (t.newest ∷ t.older) [] ∙ omega arith

  oldest_sized : All IsReference oldest
  oldest_sized = All-onto (t.newest ∷ t.older) [] sized.anchors tt

  back : onto oldest [] ≡ t.newest ∷ t.older
  back =
      onto_twice (t.newest ∷ t.older) [] []
      ∙ onto_nothing ((t.newest ∷ t.older) ++ [])
      ∙ append_nil (t.newest ∷ t.older)

  length-bytes : length bytes ≡ 47 + count * 40
  length-bytes = omega (
    arith,
    length-append t.genesis behind,
    length-append (to_be_bytes 2 t.retain)
        (to_be_bytes 2 t.page_size ++ (to_be_bytes 2 count ++ export_anchors oldest)),
    length-append (to_be_bytes 2 t.page_size) (to_be_bytes 2 count ++ export_anchors oldest),
    length-append (to_be_bytes 2 count) (export_anchors oldest),
    length-to_be_bytes 2 t.retain,
    length-to_be_bytes 2 t.page_size,
    length-to_be_bytes 2 count,
    length-export_anchors oldest oldest_sized,
    read_count,
    sized.genesis,
  )

  good_state : is_bad_state bytes t.zone t.genesis ≡ false
  good_state =
      all_false (is_between 87 163887 (length bytes)) (bytes_eq (take 8 bytes) magic)
        (get_or bytes 8 0 == byte t.zone) (bytes_eq (take 32 (t.genesis ++ behind)) t.genesis)
        (between 87 163887 (length bytes) (omega (arith, length-bytes))
          (omega (arith, length-bytes, valid.few, valid.retain_high)))
        refl (same (byte t.zone))
        (ap (λ xs. bytes_eq xs t.genesis) (take-append 32 t.genesis behind sized.genesis)
          ∙ bytes_eq_refl t.genesis)
    where
      same : (n : ℕ) → (n == n) ≡ true
      same n = ground arith

      all_false :
          (p q r s : Bool)
          → p ≡ true
          → q ≡ true
          → r ≡ true
          → s ≡ true
          → (not p || (not q || (not r || not s))) ≡ false
      all_false p q r s hp hq hr hs = rw (hp, hq, hr, hs) refl

  slice_at : (n k : ℕ) → k ≡ 32 + n → drop k (t.genesis ++ behind) ≡ drop n behind
  slice_at n k e = drop_behind n k t.genesis behind (omega (arith, sized.genesis))

  read_retain : from_be_bytes (take 2 (drop 41 bytes)) ≡ t.retain
  unfolding to_be_bytes
  read_retain =
      ap (λ xs. from_be_bytes (take 2 xs)) (slice_at 0 32 refl)
      ∙ from_be_bytes-to_be_bytes 2 t.retain (omega (arith, valid.retain_high))

  read_page_size : from_be_bytes (take 2 (drop 43 bytes)) ≡ t.page_size
  unfolding to_be_bytes
  read_page_size =
      ap (λ xs. from_be_bytes (take 2 xs)) (slice_at 2 34 refl)
      ∙ from_be_bytes-to_be_bytes 2 t.page_size (omega (arith, valid.page_high))

  read_size : from_be_bytes (take 2 (drop 45 bytes)) ≡ count
  unfolding to_be_bytes
  read_size =
      ap (λ xs. from_be_bytes (take 2 xs)) (slice_at 4 36 refl)
      ∙ from_be_bytes-to_be_bytes 2 count (omega (arith, valid.few, valid.retain_high))

  read_anchors : drop 47 bytes ≡ export_anchors oldest
  unfolding to_be_bytes
  read_anchors = slice_at 6 38 refl

  good_shape : is_bad_shape (length bytes) t.retain t.page_size count ≡ false
  good_shape =
      good_shape_lem (length bytes) t.retain t.page_size count valid.retain_low valid.retain_high
        valid.page_low valid.page_high (omega arith) valid.few length-bytes

  fresh :
      new t.zone t.genesis (front t.newest t.older) t.retain t.page_size
      ≡ ok (record t { newest = front t.newest t.older; older = [] })
  unfolding new
  fresh =
      ap
        (λ b.
          reject_if b invalid_request
          >> ok (record t { newest = front t.newest t.older; older = [] }))
        (accepted_lem t.genesis (front t.newest t.older) t.retain t.page_size valid.identity
          (front-IsAnchor t.genesis t.newest t.older valid.chain)
          (between 2 4096 t.retain valid.retain_low valid.retain_high)
          (between 1 256 t.page_size valid.page_low valid.page_high))

  good_cursor : with_anchors t.zone t.genesis t.retain t.page_size (t.newest ∷ t.older) ≡ ok t
  good_cursor =
      ap
        (λ r.
          r >>= λ (result : HeadTracker). ok (record result { newest = t.newest; older = t.older }))
        fresh

  -- What follows the first checks, on the three numbers.
  abbrev continue : ℕ → ℕ → ℕ → Result ProviderError HeadTracker
  continue retain page_size n =
      reject_if (is_bad_shape (length bytes) retain page_size n) invalid_request
      >> (restore t.genesis n (drop 47 bytes) [] >>= with_anchors t.zone t.genesis retain page_size)

  opened : from_state bytes t.zone t.genesis ≡ (
      reject_if (is_bad_state bytes t.zone t.genesis) invalid_request
      >> continue
          (from_be_bytes (take 2 (drop 41 bytes)))
          (from_be_bytes (take 2 (drop 43 bytes)))
          (from_be_bytes (take 2 (drop 45 bytes))))
  unfolding from_state
  opened = refl

  restored : restore t.genesis count (drop 47 bytes) [] ≡ ok (t.newest ∷ t.older)
  restored =
      ap (λ xs. restore t.genesis count xs []) read_anchors
      ∙ ap (λ n. restore t.genesis n (export_anchors oldest) []) (sym read_count)
      ∙ restore_lem t.genesis oldest [] oldest_sized
          (subst (IsChain t.genesis) (sym back) valid.chain)
      ∙ ap ok back

  read_back : from_state bytes t.zone t.genesis ≡ ok t
  read_back =
      opened
      ∙ ap
          (λ b.
            reject_if b invalid_request
            >> continue (from_be_bytes (take 2 (drop 41 bytes)))
                (from_be_bytes (take 2 (drop 43 bytes))) (from_be_bytes (take 2 (drop 45 bytes))))
          good_state
      ∙ ap
          (λ n.
            continue n (from_be_bytes (take 2 (drop 43 bytes)))
              (from_be_bytes (take 2 (drop 45 bytes))))
          read_retain
      ∙ ap (λ n. continue t.retain n (from_be_bytes (take 2 (drop 45 bytes)))) read_page_size
      ∙ ap (λ n. continue t.retain t.page_size n) read_size
      ∙ ap
          (λ b.
            reject_if b invalid_request
            >> (restore t.genesis count (drop 47 bytes) []
                >>= with_anchors t.zone t.genesis t.retain t.page_size))
          good_shape
      ∙ ap (λ r. r >>= with_anchors t.zone t.genesis t.retain t.page_size) restored
      ∙ good_cursor

-- A cursor that keeps its invariant, in the sizes of its Rust types, is read back from its exported
-- bytes, for its own zone and genesis.
pub from_state-export_state :
    (t : HeadTracker)
    → IsTracker t
    → IsSized t
    → from_state (export_state t) t.zone t.genesis ≡ ok t
from_state-export_state t valid sized =
    ap (λ bytes. from_state bytes t.zone t.genesis) (exported t valid sized)
    ∙ read_back t valid sized
