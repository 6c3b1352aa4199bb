-- ===== src/Provider/HeadTracker/Answers.antt =====
-- The first batch of a poll and its page are what the node answered
-- (crates/quai-provider/src/head_tracker.rs).
use quai_rust_sdk.Prelude.{
  ℕ, zero, suc, ◌-◌, ◌≡◌, refl, sym, ◌∙◌, ap, subst, Bool, true, false, not, ◌==◌, List, [], ◌∷◌,
  map, length, arith, Bool-cases, inl, inr, Result, ok, some, ok-injective, >>=-eq-ok, ok_or-ok,
  reject_if-ok, if◌then◌else◌, if_true, if_false,
}
use quai_rust_sdk.Primitives.Hash.{bytes_eq, bytes_eq_sound}
use quai_rust_sdk.Provider.Types.{
  ProviderError, BlockTag, latest, number, BlockReference, ZoneHeader, Node, parse_zone_header,
  genesis_mismatch, invalid_result, observation_changed, replay_history_unavailable,
}
use quai_rust_sdk.Provider.HeadTracker.{
  HeadTracker, Common, reference, tags, missing, collect, link, tip_and_newest, first_answers,
  read_tip, read_page,
}
use quai_rust_sdk.Provider.HeadTracker.Chain.{parse-number}
use quai_rust_sdk.Provider.HeadTracker.Seen.{collect-map-ok}

pub length-tags : (base n : ℕ) → length (tags base n) ≡ n
unfolding tags
length-tags base zero = refl
length-tags base (suc n) = omega (arith, length-tags (suc base) n)

module _ {Value : Type 0} (node : Node Value) (t : HeadTracker) where
  -- The first batch has the trusted genesis, the tip and the value at the height of the newest anchor.
  abbrev pub IsFirst : ZoneHeader → Value → Type 0
  IsFirst tip newest =
      (genesis : Value) × (head : Value) × (node.header_values 0
          (number 0 ∷ latest ∷ number t.newest.number ∷ [])
        ≡ (ok genesis ∷ ok head ∷ ok newest ∷ []))
      × (node.genesis_hash genesis ≡ ok t.genesis)
      × (parse_zone_header node t.zone latest head ≡ ok (some tip))

  -- The values are those of the headers, one by one.
  abbrev pub Decode : List Value → List ZoneHeader → Type 0
  Decode [] [] = Unit {0}
  Decode (v ∷ vs) (h ∷ hs) =
      (parse_zone_header node t.zone (number h.number) v ≡ ok (some h)) × Decode vs hs
  Decode [] (h ∷ hs) = ⊥
  Decode (v ∷ vs) [] = ⊥

  -- The headers of a page are the answers of one batch for their numbers.
  abbrev pub IsAnswered : List ZoneHeader → Type 0
  IsAnswered [] = Unit {0}
  IsAnswered (h ∷ hs) =
      (values : List Value) × (node.header_values 1 (map (λ h. number h.number) (h ∷ hs))
        ≡ map ok values)
      × Decode values (h ∷ hs)

  first_lem :
      (rs : List (Result ProviderError Value)) {head newest : Value}
      → first_answers node t rs ≡ ok (head, newest)
      → (genesis : Value) × (rs ≡ (ok genesis ∷ ok head ∷ ok newest ∷ []))
        × (node.genesis_hash genesis ≡ ok t.genesis)
  first_lem [] h = cc
  first_lem (first ∷ rest) {head} {newest} h =
      let (genesis, one, h₁) = >>=-eq-ok first _ h in
      let (hash, reading, h₂) = >>=-eq-ok (node.genesis_hash genesis) _ h₁ in
      let (same, h₃) = reject_if-ok _ genesis_mismatch _ h₂ in
      let (values, others, h₄) = >>=-eq-ok (collect rest) _ h₃ in
      (
        genesis,
        cc (
          one,
          collect-map-ok rest values others,
          ap (map {B = Result ProviderError Value} ok) (two values h₄),
        ),
        reading ∙ ap ok (bytes_eq_sound hash t.genesis (passed (bytes_eq hash t.genesis) same)),
      )
    where
      passed : (b : Bool) → not b ≡ false → b ≡ true
      passed b e = ground arith

      two :
          (values : List Value)
          → tip_and_newest node t values ≡ ok (head, newest)
          → values ≡ (head ∷ newest ∷ [])
      two [] e = cc
      two (v ∷ []) e = cc
      two (v ∷ w ∷ []) e = ap (λ (p : Value × Value). p.0 ∷ p.1 ∷ []) (ok-injective e)
      two (v ∷ w ∷ x ∷ xs) e = cc

  pub read_tip-IsFirst :
      {tip : ZoneHeader} {newest : Value} → read_tip node t ≡ ok (tip, newest) → IsFirst tip newest
  unfolding read_tip
  read_tip-IsFirst {tip} {newest} h =
      let batch = number 0 ∷ latest ∷ number t.newest.number ∷ [] in
      let ((head, value), first, h₁) =
        >>=-eq-ok (first_answers node t (node.header_values 0 batch)) _ h in
      let (answer, parsing, h₂) = >>=-eq-ok (parse_zone_header node t.zone latest head) _ h₁ in
      let (header, present, h₃) = ok_or-ok answer replay_history_unavailable _ h₂ in
      let (genesis, answers, trusted) =
        first_lem (node.header_values 0 batch) {head = head} {newest = value} first in
      subst (λ (p : ZoneHeader × Value). IsFirst p.0 p.1) {x = (header, value)} {y = (tip, newest)}
        (ok-injective h₃) (genesis, head, answers, trusted, parsing ∙ ap ok present)

  link-Decode :
      (base n : ℕ) (previous : BlockReference) (older : List BlockReference) (values : List Value)
      {headers : List ZoneHeader}
      → length values ≡ n
      → link node t base previous older values (tags previous.number n) ≡ ok headers
      → Decode values headers × (tags previous.number n ≡ map (λ h. number h.number) headers)
  unfolding link tags
  link-Decode base zero previous older [] size h =
      subst (λ hs. Decode [] hs × (◌≡◌ {A = List BlockTag} [] (map (λ h. number h.number) hs)))
        (ok-injective h) (tt, refl)
  link-Decode base zero previous older (v ∷ values) size h = absurd (omega arith)
  link-Decode base (suc n) previous older [] size h = absurd (omega arith)
  link-Decode base (suc n) previous older (v ∷ values) {headers} size h =
      let tag = number (suc previous.number) in
      let (answer, parsing, h₁) = >>=-eq-ok (parse_zone_header node t.zone tag v) _ h in
      let (header, present, h₂) = ok_or-ok answer (missing base tag) _ h₁ in
      let (_, h₃) = reject_if-ok _ observation_changed _ h₂ in
      let decoded = parsing ∙ ap ok present in
      let height = parse-number node t.zone (suc previous.number) v {header = header} decoded in
      let (rest, linking, h₄) =
        >>=-eq-ok
          (link node t base (reference header) (previous ∷ older) values
            (tags (suc previous.number) n))
          _ h₃ in
      let (others, numbers) =
        link-Decode base n (reference header) (previous ∷ older) values {headers = rest}
          (omega arith)
          (subst
            (λ k.
              link node t base (reference header) (previous ∷ older) values (tags k n) ≡ ok rest)
            (sym height) linking) in
      let both : Decode (v ∷ values) (header ∷ rest)
          × ((number (suc previous.number) ∷ tags (suc previous.number) n)
              ≡ map (λ h. number h.number) (header ∷ rest)) =
        (
          (
            subst (λ k. parse_zone_header node t.zone (number k) v ≡ ok (some header)) (sym height)
                decoded,
            others,
          ),
          ap (λ k. number k ∷ tags k n) (sym height) ∙ ap (λ ns. number header.number ∷ ns) numbers,
        ) in
      subst
        (λ hs.
          Decode (v ∷ values) hs
          × ((number (suc previous.number) ∷ tags (suc previous.number) n)
              ≡ map (λ h. number h.number) hs))
        (ok-injective h₄) both

  answered :
      (values : List Value) (headers : List ZoneHeader)
      → node.header_values 1 (map (λ h. number h.number) headers) ≡ map ok values
      → Decode values headers
      → IsAnswered headers
  answered values [] answers decoded = tt
  answered values (h ∷ hs) answers decoded = (values, answers, decoded)

  unanswered : (headers : List ZoneHeader) → Decode [] headers → IsAnswered headers
  unanswered [] decoded = tt
  unanswered (h ∷ hs) decoded = absurd decoded

  pub read_page-IsAnswered :
      (c : Common) (end : ℕ) {headers : List ZoneHeader}
      → read_page node t c end ≡ ok headers
      → IsAnswered headers
  unfolding read_page
  read_page-IsAnswered c end {headers} h =
      let n = end - c.base.number in
      let numbers = tags c.base.number n in
      let (values, reading, h₁) =
        >>=-eq-ok (if length numbers == 0 then ok [] else collect (node.header_values 1 numbers)) _
          h in
      let (same, h₂) = reject_if-ok (not (length values == length numbers)) invalid_result _ h₁ in
      let (decoded, asked) =
        link-Decode c.base.number n c.base c.older values {headers = headers}
          (equal (length values) (length numbers) same ∙ length-tags c.base.number n) h₂ in
      elim (Bool-cases (length numbers == 0)) [
        | inl e ↦
            let none_ : values ≡ [] =
              ok-injective (sym reading ∙ if_true (length numbers == 0) _ _ e) in
            unanswered headers (subst (λ vs. Decode vs headers) none_ decoded)
        | inr e ↦
            answered values headers
              (ap (node.header_values 1) (sym asked)
                ∙ collect-map-ok (node.header_values 1 numbers) values
                    (sym (if_false (length numbers == 0) _ _ e) ∙ reading))
              decoded
      ]
    where
      equal : (m k : ℕ) → not (m == k) ≡ false → m ≡ k
      equal m k e = ground arith
