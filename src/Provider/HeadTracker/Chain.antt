-- ===== src/Provider/HeadTracker/Chain.antt =====
-- Chains of anchors, and what the loops of a poll make of them.
use quai_rust_sdk.Prelude.{
  ℕ, zero, suc, ◌≤◌, ◌≡◌, refl, sym, ap, subst, false, not, ◌==◌, ltb, List, [], ◌∷◌, ◌++◌, length,
  arith, Bool-cases, inl, inr, ok, Option, none, some, ok-injective, >>=-eq-ok, reject_if-ok,
  not_ltb→le, some_injective,
}
use quai_rust_sdk.Primitives.Hash.{Hash, bytes_eq, zero_hash}
use quai_rust_sdk.Primitives.Shard.{Zone, zone_eq}
use quai_rust_sdk.Provider.Types.{
  number, BlockReference, ZoneHeader, Node, parse_zone_header, check_header, invalid_result,
}
use quai_rust_sdk.Provider.HeadTracker.{
  HeadTracker, Common, reference, contains_hash, keep, find_common, actual_hash,
}

-- An anchor has a hash, and at height zero the trusted one.
abbrev pub IsAnchor : Hash → BlockReference → Type 0
IsAnchor genesis a = (bytes_eq a.hash zero_hash ≡ false) × (a.number ≡ 0 → a.hash ≡ genesis)

abbrev pub IsAbove : BlockReference → List BlockReference → Type 0
IsAbove a [] = Unit {0}
IsAbove a (b ∷ bs) = a.number ≡ suc b.number

-- Newest first: the numbers are consecutive, and no hash occurs twice.
abbrev pub IsChain : Hash → List BlockReference → Type 0
IsChain genesis [] = Unit {0}
IsChain genesis (a ∷ bs) =
    IsAnchor genesis a × IsAbove a bs × (contains_hash bs a.hash ≡ false) × IsChain genesis bs

-- Dropping the oldest anchors.
length-keep : (n : ℕ) (xs : List BlockReference) → length (keep n xs) ≤ n
unfolding keep
length-keep zero xs = omega arith
length-keep (suc n) [] = omega arith
length-keep (suc n) (x ∷ xs) = omega (arith, length-keep n xs)

keep-fresh :
    (n : ℕ) (xs : List BlockReference) (hash : Hash)
    → contains_hash xs hash ≡ false
    → contains_hash (keep n xs) hash ≡ false
unfolding keep contains_hash
keep-fresh zero xs hash h = refl
keep-fresh (suc n) [] hash h = refl
keep-fresh (suc n) (x ∷ xs) hash h = ground (arith, keep-fresh n xs hash)

keep-IsAbove :
    (n : ℕ) (a : BlockReference) (bs : List BlockReference) → IsAbove a bs → IsAbove a (keep n bs)
unfolding keep
keep-IsAbove zero a bs h = tt
keep-IsAbove (suc n) a [] h = tt
keep-IsAbove (suc n) a (b ∷ bs) h = h

keep_rest :
    (genesis : Hash) (n : ℕ) (bs : List BlockReference)
    → IsChain genesis bs
    → IsChain genesis (keep n bs)
unfolding keep
keep_rest genesis zero bs h = tt
keep_rest genesis (suc n) [] h = tt
keep_rest genesis (suc n) (b ∷ bs) h =
    (h.0, keep-IsAbove n b bs h.1, keep-fresh n bs b.hash h.2, keep_rest genesis n bs h.3)

pub keep-IsChain :
    (genesis : Hash) (n : ℕ) (a : BlockReference) (bs : List BlockReference)
    → IsChain genesis (a ∷ bs)
    → IsChain genesis (a ∷ keep n bs) × (length (keep n bs) ≤ n)
keep-IsChain genesis n a bs h = (
  (h.0, keep-IsAbove n a bs h.1, keep-fresh n bs a.hash h.2, keep_rest genesis n bs h.3),
  length-keep n bs,
)

-- Each header names the one before as its parent, at the next height.
abbrev pub IsLinked : BlockReference → List ZoneHeader → Type 0
IsLinked previous [] = Unit {0}
IsLinked previous (h ∷ hs) =
    (h.parent_hash ≡ previous.hash) × (h.number ≡ suc previous.number) × IsLinked (reference h) hs

-- The anchors fall into those that were given up and a chain that starts at or below the tip.
pub record IsCommon (genesis : Hash) (tip : ℕ) (anchors : List BlockReference) (c : Common)
    : Type 0 where
  pub parts : anchors ≡ c.removed ++ (c.base ∷ c.older)
  pub chain : IsChain genesis (c.base ∷ c.older)
  pub reached : c.base.number ≤ tip

given_up :
    (genesis : Hash) (tip : ℕ) (a : BlockReference) (anchors : List BlockReference)
    (rest c : Common)
    → IsCommon genesis tip anchors rest
    → record rest { removed = a ∷ rest.removed } ≡ c
    → IsCommon genesis tip (a ∷ anchors) c
given_up genesis tip a anchors rest c common e =
    subst (IsCommon genesis tip (a ∷ anchors)) e (record {
      parts = ap (λ xs. a ∷ xs) common.parts;
      chain = common.chain;
      reached = common.reached;
    })

equal : (m k : ℕ) → not (m == k) ≡ false → m ≡ k
equal m k e = ground arith

module _ {Value : Type 0} (node : Node Value) where
  -- A header that was asked for by its number has that number.
  pub parse-number :
      (zone : Zone) (n : ℕ) (value : Value) {header : ZoneHeader}
      → parse_zone_header node zone (number n) value ≡ ok (some header)
      → header.number ≡ n
  unfolding parse_zone_header
  parse-number zone n value {header} h =
      let (answer, decoding, h₁) = >>=-eq-ok (node.decode value) _ h in go answer h₁
    where
      go :
          (answer : Option ZoneHeader)
          → check_header node zone (number n) answer ≡ ok (some header)
          → header.number ≡ n
      go none e = cc
      go (some found) e =
          let (_, e₁) = reject_if-ok (not (zone_eq found.zone zone)) invalid_result _ e in
          let (same, e₂) = reject_if-ok (not (n == found.number)) invalid_result _ e₁ in
          let eq = some_injective (ok-injective e₂) in
          sym (subst (λ (h : ZoneHeader). n ≡ h.number) eq (equal n found.number same))

  module _ (t : HeadTracker) where
    pub find_common_lem :
        (newest : Value) (tip : ℕ) (anchors : List BlockReference) {c : Common}
        → IsChain t.genesis anchors
        → find_common node t newest tip anchors ≡ ok c
        → IsCommon t.genesis tip anchors c
    unfolding find_common
    find_common_lem newest tip [] chain h = cc
    find_common_lem newest tip (a ∷ anchors) {c} chain h = elim (Bool-cases (ltb tip a.number)) [
      | inl e ↦
          let (rest, finding, h₁) =
            >>=-eq-ok (find_common node t newest tip anchors) _ (rw (e, find_common) at h) in
          given_up t.genesis tip a anchors rest c
            (find_common_lem newest tip anchors {c = rest} chain.3 finding) (ok-injective h₁)
      | inr e ↦
          let (actual, reading, h₁) =
            >>=-eq-ok (actual_hash node t newest a) _ (rw (e, find_common) at h) in
          elim (Bool-cases (bytes_eq actual a.hash)) [
            | inl same ↦
                subst (IsCommon t.genesis tip (a ∷ anchors)) (ok-injective (rw same at h₁))
                  (record { parts = refl; chain = chain; reached = not_ltb→le _ _ e })
            | inr other ↦
                let (rest, finding, h₂) =
                  >>=-eq-ok (find_common node t newest tip anchors) _ (rw other at h₁) in
                given_up t.genesis tip a anchors rest c
                  (find_common_lem newest tip anchors {c = rest} chain.3 finding) (ok-injective h₂)
          ]
    ]
