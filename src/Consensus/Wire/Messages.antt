-- ===== src/Consensus/Wire/Messages.antt =====
-- The walk as a relation on its reads, and its fuel.
use quai_rust_sdk.Prelude.{
  ℕ, zero, suc, ◌+◌, ◌≤◌, ◌≡◌, refl, sym, ap, ◌∙◌, ◌↔◌, arith, List, [], ◌∷◌, length, Option,
  Option-cases, none, some, some_injective, inl, inr, ok, ok-injective, >>=_iff, ok_or_iff,
}
use quai_rust_sdk.Consensus.Error.{too_large}
use quai_rust_sdk.Consensus.Wire.{
  WireKind, Field, read_field, child, with_child, opened, enter, take_one, walk, preflight,
}
use quai_rust_sdk.Consensus.Wire.Fields.{read_field-IsShorter}

-- The walk reads the bytes, and enters `n` messages.
pub data Walked : WireKind → List ℕ → ℕ → Type 0 where
  done : (kind : WireKind) → Walked kind [] 0
  passed :
      (kind : WireKind) (b : ℕ) (bs : List ℕ) (f : Field) (n : ℕ)
      → read_field (b ∷ bs) ≡ ok f
      → opened kind f.tag f.part ≡ none
      → Walked kind f.rest n
      → Walked kind (b ∷ bs) n
  entered :
      (kind : WireKind) (b : ℕ) (bs : List ℕ) (f : Field) (c : WireKind) (part : List ℕ) (m n : ℕ)
      → read_field (b ∷ bs) ≡ ok f
      → opened kind f.tag f.part ≡ some (c, part)
      → Walked c part m
      → Walked kind f.rest n
      → Walked kind (b ∷ bs) (suc (m + n))

-- An opened message is what its field holds.
pub opened-some :
    (kind : WireKind) (tag : ℕ) (part : Option (List ℕ)) (c : WireKind) (p : List ℕ)
    → opened kind tag part ≡ some (c, p)
    → part ≡ some p
opened-some kind tag none c p h = cc
opened-some kind tag (some q) c p h = by_child (child kind tag) h
  where
    by_child :
        (o : Option WireKind)
        → with_child q o ≡ some (c, p)
        → ◌≡◌ {A = Option (List ℕ)} (some q) (some p)
    by_child none e = cc
    by_child (some d) e = ap (λ (x : WireKind × List ℕ). some x.1) (some_injective e)

take_one_lem : (budget less : ℕ) → take_one budget ≡ some less → budget ≡ suc less
take_one_lem zero less h = cc
take_one_lem (suc n) less h = ap suc (some_injective h)

total : (m n left : ℕ) → suc (m + n) + left ≡ suc (m + (n + left))
total m n left = omega arith

abbrev IsRead : WireKind → List ℕ → ℕ → ℕ → Type 0
IsRead kind bytes budget left = (n : ℕ) × Walked kind bytes n × (budget ≡ n + left)

walk_sound :
    (fuel : ℕ) (kind : WireKind) (bytes : List ℕ) (budget left : ℕ)
    → walk fuel kind bytes budget ≡ ok left
    → IsRead kind bytes budget left
unfolding walk
walk_sound zero kind [] budget left h = (0, done kind, ok-injective h ∙ omega arith)
walk_sound (suc fuel) kind [] budget left h = (0, done kind, ok-injective h ∙ omega arith)
walk_sound zero kind (b ∷ bs) budget left h = cc
walk_sound (suc fuel) kind (b ∷ bs) budget left h =
    let (f, e, h1) = (>>=_iff (read_field (b ∷ bs)) _ left).0 h in
    let (middle, e1, h2) =
      (>>=_iff (enter (walk fuel) (opened kind f.tag f.part) budget) _ left).0 h1 in
    let (n, behind, same) = walk_sound fuel kind f.rest middle left h2 in
    elim (Option-cases (opened kind f.tag f.part)) [
      | inl shut ↦
          let flat : budget ≡ middle =
            ok-injective (ap (λ o. enter (walk fuel) o budget) (sym shut) ∙ e1) in
          (n, passed kind b bs f n e shut behind, flat ∙ same)
      | inr ((c, part), open_) ↦
          let inside : enter (walk fuel) (some (c, part)) budget ≡ ok middle =
            ap (λ o. enter (walk fuel) o budget) (sym open_) ∙ e1 in
          let (less, one, w) = (ok_or_iff (take_one budget) too_large _ middle).0 inside in
          let (m, within, cost) = walk_sound fuel c part less middle w in
          (
            suc (m + n),
            entered kind b bs f c part m n e open_ within behind,
            omega (arith, take_one_lem budget less one, cost, same),
          )
    ]

walk_complete :
    (fuel : ℕ) (kind : WireKind) (bytes : List ℕ) (budget left n : ℕ)
    → length bytes ≤ fuel
    → Walked kind bytes n
    → budget ≡ n + left
    → walk fuel kind bytes budget ≡ ok left
unfolding walk
walk_complete fuel _ _ budget left _ enough (done kind) same = ap ok (same ∙ omega arith)
walk_complete zero _ _ budget left _ enough (passed kind b bs f n e shut behind) same =
    absurd (omega arith)
walk_complete (suc fuel) _ _ budget left _ enough (passed kind b bs f n e shut behind) same =
    let (shorter, _) = read_field-IsShorter (b ∷ bs) f e in
    (>>=_iff (read_field (b ∷ bs)) _ left).1 (
      f,
      e,
      (>>=_iff (enter (walk fuel) (opened kind f.tag f.part) budget) _ left).1 (
        budget,
        ap (λ o. enter (walk fuel) o budget) shut,
        walk_complete fuel kind f.rest budget left n (omega (arith, enough, shorter)) behind same,
      ),
    )
walk_complete zero _ _ budget left _ enough (entered kind b bs f c part m n e open_ within behind)
      same =
    absurd (omega arith)
walk_complete (suc fuel) _ _ budget left _ enough
      (entered kind b bs f c part m n e open_ within behind) same =
    let (shorter, parts) = read_field-IsShorter (b ∷ bs) f e in
    let small = parts part (opened-some kind f.tag f.part c part open_) in
    (>>=_iff (read_field (b ∷ bs)) _ left).1 (
      f,
      e,
      (>>=_iff (enter (walk fuel) (opened kind f.tag f.part) budget) _ left).1 (
        n + left,
        ap (λ o. enter (walk fuel) o budget) open_
            ∙ (ok_or_iff (take_one budget) too_large _ (n + left)).1 (
              m + (n + left),
              ap take_one (same ∙ total m n left),
              walk_complete fuel c part (m + (n + left)) (n + left) m (omega (arith, enough, small))
                  within refl,
            ),
        walk_complete fuel kind f.rest (n + left) left n (omega (arith, enough, shorter)) behind
            refl,
      ),
    )

-- The budget pays for the message itself and for each that is entered.
pub preflight-Walked_iff :
    (bytes : List ℕ) (kind : WireKind) (budget left : ℕ)
    → (preflight bytes kind budget ≡ ok left)
      ↔ ((n : ℕ) × Walked kind bytes n × (budget ≡ suc (n + left)))
unfolding preflight
preflight-Walked_iff bytes kind budget left = (
  λ h.
      let (less, one, w) = (ok_or_iff (take_one budget) too_large _ left).0 h in
      let (n, m, same) = walk_sound (length bytes) kind bytes less left w in
      (n, m, take_one_lem budget less one ∙ ap suc same),
  λ (n, m, same). (ok_or_iff (take_one budget) too_large _ left).1 (
    n + left,
    ap take_one same,
    walk_complete (length bytes) kind bytes (n + left) left n (omega arith) m refl,
  ),
)
