-- ===== src/Provider/HeadTracker/Seen.antt =====
-- What the node answered at the anchors of a poll and at the ends of its page
-- (crates/quai-provider/src/head_tracker.rs).
use quai_rust_sdk.Prelude.{
  ℕ, ◌<◌, ◌≡◌, ◌≢◌, refl, sym, ◌∙◌, ap, subst, Bool, true, false, not, ◌==◌, ltb, ltb→lt, List, [],
  ◌∷◌, map, All, arith, Bool-cases, ◌⊎◌, inl, inr, Result, ok, Option, some, ok-injective,
  >>=-eq-ok, ok_or-ok, reject_if, if◌then◌else◌,
}
use quai_rust_sdk.Primitives.Hash.{Hash, bytes_eq, bytes_eq_sound, bytes_eq_refl}
use quai_rust_sdk.Provider.Types.{
  ProviderError, number, BlockReference, ZoneHeader, Node, parse_zone_header, header_at,
  replay_history_unavailable, observation_changed,
}
use quai_rust_sdk.Provider.HeadTracker.{
  HeadTracker, Common, same_reference, collect, actual_hash, find_common, check_end, check_both,
  check_ends,
}

different : (a b : Hash) → bytes_eq a b ≡ false → a ≢ b
different a b h e = cc (h, sym (bytes_eq_refl b), ap (λ x. bytes_eq x b) e)

same_reference_sound : (a b : BlockReference) → same_reference a b ≡ true → a ≡ b
same_reference_sound a b h =
    let height : a.number ≡ b.number = ground arith in
    let hash : a.hash ≡ b.hash = bytes_eq_sound a.hash b.hash (ground arith) in
    ap (λ (n : ℕ). record { number = n; hash = a.hash }) height
    ∙ ap (λ (x : Hash). record { number = b.number; hash = x }) hash

same_reference_complete : (a : BlockReference) → same_reference a a ≡ true
same_reference_complete a = ground (arith, bytes_eq_refl a.hash)

pub collect-map-ok :
    {A : Type 0} (rs : List (Result ProviderError A)) (xs : List A)
    → collect rs ≡ ok xs
    → rs ≡ map ok xs
unfolding collect
collect-map-ok {A = A} [] xs h =
    subst (λ ys. ◌≡◌ {A = List (Result ProviderError A)} [] (map ok ys)) (ok-injective h) refl
collect-map-ok (r ∷ rs) xs h =
    let (a, first, h₁) = >>=-eq-ok r _ h in
    let (rest, others, h₂) = >>=-eq-ok (collect rs) _ h₁ in
    subst (λ ys. (r ∷ rs) ≡ map ok ys) (ok-injective h₂) (cc (first, collect-map-ok rs rest others))

module _ {Value : Type 0} (node : Node Value) (t : HeadTracker) where
  -- The header that stands for an anchor: the newest one was read in the first batch, and the others
  -- are read one by one.
  abbrev pub IsReadAs : Value → BlockReference → ZoneHeader → Type 0
  IsReadAs newest a header =
      ((a ≡ t.newest) × (parse_zone_header node t.zone (number a.number) newest ≡ ok (some header)))
      ⊎ ((a ≢ t.newest) × (header_at node t.zone a.number ≡ ok (some header)))

  -- The node's hash at the height of an anchor: the trusted one at zero, and else that of a header.
  abbrev pub HasHash : Value → BlockReference → Hash → Type 0
  HasHash newest a hash =
      ((a.number ≡ 0) × (hash ≡ t.genesis))
      ⊎ ((a.number ≢ 0) × (header : ZoneHeader) × IsReadAs newest a header × (hash ≡ header.hash))

  -- An anchor that the chain of the node does not have.
  abbrev pub IsGone : Value → ℕ → BlockReference → Type 0
  IsGone newest tip a = (tip < a.number) ⊎ ((hash : Hash) × HasHash newest a hash × (hash ≢ a.hash))

  -- The answer for an anchor has its hash.
  abbrev pub Confirms : Value → BlockReference → Type 0
  Confirms value a =
      ((a.number ≡ 0) × (node.genesis_hash value ≡ ok a.hash))
      ⊎ ((a.number ≢ 0)
          × (header : ZoneHeader) × (parse_zone_header node t.zone (number a.number) value
              ≡ ok (some header))
          × (header.hash ≡ a.hash))

  -- Behind a page, both of its ends are read again, and have not changed.
  abbrev pub IsStable : BlockReference → BlockReference → List ZoneHeader → Type 0
  IsStable base end [] = Unit {0}
  IsStable base end (header ∷ headers) =
      (v : Value) × (w : Value) × (node.header_values 2
          (number base.number ∷ number end.number ∷ [])
        ≡ (ok v ∷ ok w ∷ []))
      × Confirms v base
      × Confirms w end

  actual_hash-HasHash :
      (newest : Value) (a : BlockReference) {hash : Hash}
      → actual_hash node t newest a ≡ ok hash
      → HasHash newest a hash
  unfolding actual_hash
  actual_hash-HasHash newest a {hash} h = elim (Bool-cases (a.number == 0)) [
    | inl e ↦ inl (ground arith, sym (ok-injective (rw (e, actual_hash) at h)))
    | inr e ↦
        let (answer, reading, h₁) =
          >>=-eq-ok
            (if same_reference a t.newest
              then parse_zone_header node t.zone (number a.number) newest
              else header_at node t.zone a.number)
            _ (rw (e, actual_hash) at h) in
        let (header, present, h₂) = ok_or-ok answer replay_history_unavailable _ h₁ in
        inr (
          ground arith,
          header,
          by_reference (same_reference a t.newest) refl answer header reading present,
          sym (ok-injective h₂),
        )
  ]
    where
      by_reference :
          (b : Bool)
          → same_reference a t.newest ≡ b
          → (answer : Option ZoneHeader) (header : ZoneHeader)
          → (if b
              then parse_zone_header node t.zone (number a.number) newest
              else header_at node t.zone a.number)
            ≡ ok answer
          → answer ≡ some header
          → IsReadAs newest a header
      by_reference true e answer header h present =
          inl (same_reference_sound a t.newest e, h ∙ ap ok present)
      by_reference false e answer header h present =
          inr (
            λ same. cc (e, same_reference_complete a, ap (same_reference a) same),
            h ∙ ap ok present,
          )

  -- The base of a poll has the hash of the node, and what was given up above it has not.
  pub find_common-seen :
      (newest : Value) (tip : ℕ) (anchors : List BlockReference) {c : Common}
      → find_common node t newest tip anchors ≡ ok c
      → HasHash newest c.base c.base.hash × All (IsGone newest tip) c.removed
  unfolding find_common
  find_common-seen newest tip [] h = cc
  find_common-seen newest tip (a ∷ anchors) {c} h = elim (Bool-cases (ltb tip a.number)) [
    | inl e ↦
        let (rest, finding, h₁) =
          >>=-eq-ok (find_common node t newest tip anchors) _ (rw (e, find_common) at h) in
        given_up rest (inl (ltb→lt tip a.number e))
          (find_common-seen newest tip anchors {c = rest} finding) (ok-injective h₁)
    | inr e ↦
        let (actual, reading, h₁) =
          >>=-eq-ok (actual_hash node t newest a) _ (rw (e, find_common) at h) in
        let answered = actual_hash-HasHash newest a {hash = actual} reading in
        elim (Bool-cases (bytes_eq actual a.hash)) [
          | inl same ↦
              subst
                (λ (c : Common).
                  HasHash newest c.base c.base.hash × All (IsGone newest tip) c.removed)
                {x = record { removed = []; base = a; older = anchors }} {y = c}
                (ok-injective (rw same at h₁))
                (subst (HasHash newest a) (bytes_eq_sound actual a.hash same) answered, tt)
          | inr other ↦
              let (rest, finding, h₂) =
                >>=-eq-ok (find_common node t newest tip anchors) _ (rw other at h₁) in
              given_up rest (inr (actual, answered, different actual a.hash other))
                (find_common-seen newest tip anchors {c = rest} finding) (ok-injective h₂)
        ]
  ]
    where
      given_up :
          (rest : Common)
          → IsGone newest tip a
          → HasHash newest rest.base rest.base.hash × All (IsGone newest tip) rest.removed
          → record rest { removed = a ∷ rest.removed } ≡ c
          → HasHash newest c.base c.base.hash × All (IsGone newest tip) c.removed
      given_up rest gone (has, others) e =
          subst
            (λ (c : Common). HasHash newest c.base c.base.hash × All (IsGone newest tip) c.removed)
            e (has, (gone, others))

  check_end-Confirms :
      (a : BlockReference) (value : Value) → check_end node t a value ≡ ok tt → Confirms value a
  unfolding check_end
  check_end-Confirms a value h = elim (Bool-cases (a.number == 0)) [
    | inl e ↦
        let (hash, reading, h₁) = >>=-eq-ok (node.genesis_hash value) _ (rw (e, check_end) at h) in
        inl (ground arith, reading ∙ ap ok (bytes_eq_sound hash a.hash (passed _ h₁)))
    | inr e ↦
        let (answer, reading, h₁) =
          >>=-eq-ok (parse_zone_header node t.zone (number a.number) value) _
            (rw (e, check_end) at h) in
        let (header, present, h₂) = ok_or-ok answer observation_changed _ h₁ in
        inr (
          ground arith,
          header,
          reading ∙ ap ok present,
          bytes_eq_sound header.hash a.hash (passed _ h₂),
        )
  ]
    where
      passed : (b : Bool) → reject_if (not b) observation_changed ≡ ok tt → b ≡ true
      passed true h = refl
      passed false h = cc

  pub check_ends-IsStable :
      (base end : BlockReference) (headers : List ZoneHeader)
      → check_ends node t base end headers ≡ ok tt
      → IsStable base end headers
  unfolding check_ends
  check_ends-IsStable base end [] h = tt
  check_ends-IsStable base end (header ∷ headers) h =
      let (values, reading, h₁) =
        >>=-eq-ok (collect (node.header_values 2 (number base.number ∷ number end.number ∷ []))) _
          h in
      both values
        (collect-map-ok (node.header_values 2 (number base.number ∷ number end.number ∷ [])) values
          reading)
        h₁
    where
      both :
          (values : List Value)
          → node.header_values 2 (number base.number ∷ number end.number ∷ []) ≡ map ok values
          → check_both node t base end values ≡ ok tt
          → IsStable base end (header ∷ headers)
      both [] answers h = cc
      both (v ∷ []) answers h = cc
      both (v ∷ w ∷ []) answers h =
          let (_, first, second) = >>=-eq-ok (check_end node t base v) _ h in
          (v, w, answers, check_end-Confirms base v first, check_end-Confirms end w second)
      both (v ∷ w ∷ x ∷ xs) answers h = cc
