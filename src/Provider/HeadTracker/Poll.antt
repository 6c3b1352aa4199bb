-- ===== src/Provider/HeadTracker/Poll.antt =====
-- The invariant of the cursor, and the update of a poll (crates/quai-provider/src/head_tracker.rs).
use quai_rust_sdk.Prelude.{
  ℕ, zero, suc, ◌+◌, ◌-◌, ◌≤◌, ◌≡◌, refl, sym, ◌∙◌, ap, subst, true, false, not, ◌==◌, List, [],
  ◌∷◌, ◌++◌, length, arith, ok, ok-injective, >>=-eq-ok, reject_if-ok, if◌then◌else◌, All,
}
use quai_rust_sdk.Primitives.Hash.{Hash, bytes_eq, bytes_eq_sound, zero_hash}
use quai_rust_sdk.Primitives.Shard.{Zone}
use quai_rust_sdk.Provider.Types.{BlockReference, ZoneHeader, Node, invalid_result, invalid_request}
use quai_rust_sdk.Provider.HeadTracker.{
  HeadTracker, HeadUpdate, Common, new, is_refused, contains_hash, tags, collect, extend, keep,
  find_common, check_ends, read_tip, read_page, page_end, poll,
}
use quai_rust_sdk.Provider.HeadTracker.Chain.{
  IsChain, IsLinked, IsCommon, keep-IsChain, find_common_lem,
}
use quai_rust_sdk.Provider.HeadTracker.Seen.{
  HasHash, IsGone, IsStable, find_common-seen, check_ends-IsStable,
}
use quai_rust_sdk.Provider.HeadTracker.Answers.{
  IsFirst, IsAnswered, length-tags, read_tip-IsFirst, read_page-IsAnswered,
}
use quai_rust_sdk.Provider.HeadTracker.Replay.{extended, IsPage, link_lem}

-- The bounds of a cursor, and its anchors: at most `retain`, consecutive, with distinct hashes.
pub record IsTracker (t : HeadTracker) : Type 0 where
  pub identity : bytes_eq t.genesis zero_hash ≡ false
  pub retain_low : 2 ≤ t.retain
  pub retain_high : t.retain ≤ 4096
  pub page_low : 1 ≤ t.page_size
  pub page_high : t.page_size ≤ 256
  pub few : length (t.newest ∷ t.older) ≤ t.retain
  pub chain : IsChain t.genesis (t.newest ∷ t.older)

-- A cursor before and after, with the update between, on the answers of a node whose tip is at the
-- height `tip`: the base has the node's hash and the anchors above it are removed, linked headers
-- are added to it, and both ends of the page were read again.
pub record IsUpdate {Value : Type 0} (node : Node Value) (newest : Value) (t t' : HeadTracker)
    (u : HeadUpdate) (tip : ℕ) : Type 0 where
  pub base : BlockReference
  pub kept : List BlockReference
  pub undone : (t.newest ∷ t.older) ≡ u.removed ++ (base ∷ kept)
  pub reached : base.number ≤ tip
  pub common : HasHash node t newest base base.hash
  pub gone : All (IsGone node t newest tip) u.removed
  pub stable : IsStable node t base t'.newest u.added
  pub answered : IsAnswered node t u.added
  pub linked : IsLinked base u.added
  pub page : length u.added ≤ t.page_size
  pub anchors : (t'.newest ∷ t'.older) ≡ keep t.retain (extended base kept u.added)
  pub checkpoint : u.checkpoint ≡ t'.newest
  pub height : u.checkpoint.number ≡ base.number + length u.added
  pub caught_up : u.caught_up ≡ true → u.checkpoint.number ≡ tip

keep_newest :
    (n : ℕ) (a : BlockReference) (xs : List BlockReference)
    → 1 ≤ n
    → (a ∷ keep (n - 1) xs) ≡ keep n (a ∷ xs)
unfolding keep
keep_newest zero a xs h = absurd (omega arith)
keep_newest (suc n) a xs h = ap (λ k. a ∷ keep k xs) (one_less n)
  where
    one_less : (n : ℕ) → suc n - 1 ≡ n
    one_less n = omega arith

module _ {Value : Type 0} (node : Node Value) (t : HeadTracker) where
  read_page_lem :
      (c : Common) (end : ℕ) {headers : List ZoneHeader}
      → IsChain t.genesis (c.base ∷ c.older)
      → read_page node t c end ≡ ok headers
      → IsPage t.genesis c.base c.older (end - c.base.number) headers
  unfolding read_page
  read_page_lem c end {headers} chain h =
      let (values, reading, h₁) =
        >>=-eq-ok
          (if length (tags c.base.number (end - c.base.number)) == 0
            then ok []
            else collect (node.header_values 1 (tags c.base.number (end - c.base.number))))
          _ h in
      let (same, h₂) =
        reject_if-ok (not (length values == length (tags c.base.number (end - c.base.number))))
          invalid_result _ h₁ in
      link_lem node t c.base.number (end - c.base.number) c.base c.older values {headers = headers}
        chain (equal (length values) same ∙ length-tags c.base.number (end - c.base.number)) h₂
    where
      equal :
          (n : ℕ)
          → not (n == length (tags c.base.number (end - c.base.number))) ≡ false
          → n ≡ length (tags c.base.number (end - c.base.number))
      equal n e = ground arith

  abbrev moved : Common → List ZoneHeader → HeadTracker
  moved c added = record t {
    newest = (extend c.base c.older added).0;
    older = keep (t.retain - 1) (extend c.base c.older added).1;
  }

  abbrev update : Common → List ZoneHeader → ℕ → HeadUpdate
  update c added tip = record {
    removed = c.removed;
    added = added;
    checkpoint = (extend c.base c.older added).0;
    caught_up = page_end node t c tip == tip;
  }

  moved-IsTracker :
      (c : Common) (added : List ZoneHeader)
      → IsTracker t
      → IsPage t.genesis c.base c.older (length added) added
      → IsTracker (moved c added)
  moved-IsTracker c added valid page =
      let (chain, few) =
        keep-IsChain t.genesis (t.retain - 1) (extend c.base c.older added).0
          (extend c.base c.older added).1 page.chain in
      record {
        identity = valid.identity;
        retain_low = valid.retain_low;
        retain_high = valid.retain_high;
        page_low = valid.page_low;
        page_high = valid.page_high;
        few = omega (arith, few, valid.retain_low);
        chain = chain;
      }

  moved-IsUpdate :
      (newest : Value) (c : Common) (added : List ZoneHeader) (tip : ℕ)
      → IsTracker t
      → IsCommon t.genesis tip (t.newest ∷ t.older) c
      → HasHash node t newest c.base c.base.hash × All (IsGone node t newest tip) c.removed
      → IsStable node t c.base (extend c.base c.older added).0 added
      → IsAnswered node t added
      → IsPage t.genesis c.base c.older (page_end node t c tip - c.base.number) added
      → IsUpdate node newest t (moved c added) (update c added tip) tip
  moved-IsUpdate newest c added tip valid common seen stable answered page = record {
    base = c.base;
    kept = c.older;
    undone = common.parts;
    reached = common.reached;
    common = seen.0;
    gone = seen.1;
    stable = stable;
    answered = answered;
    linked = page.linked;
    page = omega (arith, page.size);
    anchors =
        keep_newest t.retain (extend c.base c.older added).0 (extend c.base c.older added).1
          (omega (arith, valid.retain_low));
    checkpoint = refl;
    height = omega (arith, page.height, page.size);
    caught_up =
        λ e. omega (arith, page.height, common.reached, equal (page_end node t c tip) tip e);
  }
    where
      equal : (m k : ℕ) → (m == k) ≡ true → m ≡ k
      equal m k e = ground arith

  -- The parts of a successful poll.
  pub poll_lem :
      {t' : HeadTracker} {u : HeadUpdate}
      → IsTracker t
      → poll node t ≡ ok (t', u)
      → (tip : ZoneHeader) × (newest : Value) × (read_tip node t ≡ ok (tip, newest))
        × IsFirst node t tip newest
        × IsUpdate node newest t t' u tip.number
        × IsTracker t'
  unfolding poll
  poll_lem {t'} {u} valid h =
      let ((tip, newest), reading, h₁) = >>=-eq-ok (read_tip node t) _ h in
      let (c, finding, h₂) =
        >>=-eq-ok (find_common node t newest tip.number (t.newest ∷ t.older)) _ h₁ in
      let (added, paging, h₃) =
        >>=-eq-ok (read_page node t c (page_end node t c tip.number)) _ h₂ in
      let (_, checking, h₄) =
        >>=-eq-ok (check_ends node t c.base (extend c.base c.older added).0 added) _ h₃ in
      let common =
        find_common_lem node t newest tip.number (t.newest ∷ t.older) {c = c} valid.chain finding in
      let page =
        read_page_lem c (page_end node t c tip.number) {headers = added} common.chain paging in
      let both =
        subst (λ p. IsUpdate node newest t p.0 p.1 tip.number × IsTracker p.0)
          {x = (moved c added, update c added tip.number)} {y = (t', u)} (ok-injective h₄)
          (
            moved-IsUpdate newest c added tip.number valid common
                (find_common-seen node t newest tip.number (t.newest ∷ t.older) {c = c} finding)
                (check_ends-IsStable node t c.base (extend c.base c.older added).0 added checking)
                (read_page-IsAnswered node t c (page_end node t c tip.number) {headers = added}
                  paging)
                page,
            moved-IsTracker c added valid
                (subst (λ n. IsPage t.genesis c.base c.older n added) (sym page.size) page),
          ) in
      (
        tip,
        newest,
        reading,
        read_tip-IsFirst node t {tip = tip} {newest = newest} reading,
        both.0,
        both.1,
      )

nothing_seen : (hash : Hash) → contains_hash [] hash ≡ false
unfolding contains_hash
nothing_seen hash = refl

pub new-IsTracker :
    (zone : Zone) (genesis : Hash) (checkpoint : BlockReference) (retain page_size : ℕ)
    {t : HeadTracker}
    → new zone genesis checkpoint retain page_size ≡ ok t
    → IsTracker t
unfolding new
new-IsTracker zone genesis checkpoint retain page_size {t} h =
    let (good, h₁) =
      reject_if-ok (is_refused genesis checkpoint retain page_size) invalid_request _ h in
    subst IsTracker (ok-injective h₁) (fresh good)
  where
    fresh :
        is_refused genesis checkpoint retain page_size ≡ false
        → IsTracker (record {
          zone = zone;
          genesis = genesis;
          newest = checkpoint;
          older = [];
          retain = retain;
          page_size = page_size;
        })
    fresh good = record {
      identity = ground arith;
      retain_low = ground arith;
      retain_high = ground arith;
      page_low = ground arith;
      page_high = ground arith;
      few = ground arith;
      chain = (
        (ground arith, λ e. bytes_eq_sound checkpoint.hash genesis (ground arith)),
        tt,
        nothing_seen checkpoint.hash,
        tt,
      );
    }
