-- ===== src/Provider/HeadTracker/Replay.antt =====
-- What a poll does to the cursor (crates/quai-provider/src/head_tracker.rs).
use quai_rust_sdk.Prelude.{
  ℕ, zero, suc, ◌+◌, ◌≡◌, refl, sym, ◌∙◌, ap, subst, false, ◌||◌, not, List, [], ◌∷◌, length, arith,
  ok, ok-injective, >>=-eq-ok, ok_or-ok, reject_if-ok,
}
use quai_rust_sdk.Primitives.Hash.{Hash, bytes_eq, bytes_eq_sound, zero_hash}
use quai_rust_sdk.Provider.Types.{
  number, BlockReference, ZoneHeader, Node, parse_zone_header, observation_changed,
}
use quai_rust_sdk.Provider.HeadTracker.{
  HeadTracker, reference, contains_hash, tags, missing, extend, link,
}
use quai_rust_sdk.Provider.HeadTracker.Chain.{IsChain, IsLinked, parse-number}

-- The chain behind some headers.
abbrev pub extended : BlockReference → List BlockReference → List ZoneHeader → List BlockReference
extended previous older headers =
    (extend previous older headers).0 ∷ (extend previous older headers).1

pub record IsPage (genesis : Hash) (previous : BlockReference) (older : List BlockReference) (n : ℕ)
    (headers : List ZoneHeader) : Type 0 where
  pub linked : IsLinked previous headers
  pub size : length headers ≡ n
  pub chain : IsChain genesis (extended previous older headers)
  pub height : (extend previous older headers).0.number ≡ previous.number + n

-- The checks of one header of the page.
admitted :
    (header : ZoneHeader) (previous : BlockReference) (older : List BlockReference)
    → (not (bytes_eq header.parent_hash previous.hash)
        || (bytes_eq header.hash zero_hash || contains_hash (previous ∷ older) header.hash))
      ≡ false
    → (header.parent_hash ≡ previous.hash)
      × (bytes_eq header.hash zero_hash ≡ false)
      × (contains_hash (previous ∷ older) header.hash ≡ false)
admitted header previous older h = (bytes_eq_sound _ _ (ground arith), ground arith, ground arith)

module _ {Value : Type 0} (node : Node Value) (t : HeadTracker) where
  pub link_lem :
      (base n : ℕ) (previous : BlockReference) (older : List BlockReference) (values : List Value)
      {headers : List ZoneHeader}
      → IsChain t.genesis (previous ∷ older)
      → length values ≡ n
      → link node t base previous older values (tags previous.number n) ≡ ok headers
      → IsPage t.genesis previous older n headers
  unfolding link tags extend
  link_lem base zero previous older [] chain size h =
      subst (IsPage t.genesis previous older 0) (ok-injective h)
        (record { linked = tt; size = refl; chain = chain; height = omega arith })
  link_lem base zero previous older (v ∷ values) chain size h = absurd (omega arith)
  link_lem base (suc n) previous older [] chain size h = absurd (omega arith)
  link_lem base (suc n) previous older (v ∷ values) {headers} chain size h =
      let (answer, parsing, h₁) =
        >>=-eq-ok (parse_zone_header node t.zone (number (suc previous.number)) v) _ h in
      let (header, present, h₂) =
        ok_or-ok answer (missing base (number (suc previous.number))) _ h₁ in
      let (good, h₃) = reject_if-ok _ observation_changed _ h₂ in
      let (parent, nonzero, fresh) = admitted header previous older good in
      let height =
        parse-number node t.zone (suc previous.number) v {header = header}
          (parsing ∙ ap ok present) in
      let (rest, linking, h₄) =
        >>=-eq-ok
          (link node t base (reference header) (previous ∷ older) values
            (tags (suc previous.number) n))
          _ h₃ in
      let page =
        link_lem base n (reference header) (previous ∷ older) values {headers = rest}
          ((nonzero, λ e. absurd (omega arith)), height, fresh, chain) (omega arith)
          (subst
            (λ k.
              link node t base (reference header) (previous ∷ older) values (tags k n) ≡ ok rest)
            (sym height) linking) in
      subst (IsPage t.genesis previous older (suc n)) (ok-injective h₄) (record {
        linked = (parent, height, page.linked);
        size = omega (arith, page.size);
        chain = page.chain;
        height = omega (arith, page.height);
      })
