-- ===== src/Wallet/Allocation/Journal.antt =====
-- Lists of allocations that stay apart, under the operations of the map
-- (crates/quai-wallet/src/allocation.rs).
pub mod Some
use quai_rust_sdk.Prelude.{
  ℕ, ◌≤◌, ◌==◌, ltb, Bool, true, false, if◌then◌else◌, List, [], ◌∷◌, map, All, none, some, ◌≡◌,
  refl, sym, ap, ◌∙◌, subst, ◌≢◌, ◌⊎◌, inl, inr, Bool-cases, if_true, if_false, ==_iff, false_iff,
}
use quai_rust_sdk.Wallet.Metadata.{PublicAddress}
use quai_rust_sdk.Wallet.Allocation.{
  AddressAllocation, AddressAllocationStatus, pending, abandoned, completed, find, insert,
  set_status, is_pending, give_up,
}

-- Two completed statuses have different addresses.
unfoldable pub Differ : AddressAllocationStatus → AddressAllocationStatus → Type 0
Differ (completed p) (completed q) = p.address ≢ q.address
Differ s t = Unit

abbrev is_completed : AddressAllocationStatus → Bool
is_completed (completed p) = true
is_completed _ = false

open_right : (s t : AddressAllocationStatus) → is_completed t ≡ false → Differ s t
unfolding Differ
open_right (completed p) (completed q) h = cc
open_right (completed p) pending h = tt
open_right (completed p) abandoned h = tt
open_right pending t h = tt
open_right abandoned t h = tt

Differ-sym : (s t : AddressAllocationStatus) → Differ s t → Differ t s
unfolding Differ
Differ-sym (completed p) (completed q) h = λ e. h (sym e)
Differ-sym (completed p) pending h = tt
Differ-sym (completed p) abandoned h = tt
Differ-sym pending t h = open_right t pending refl
Differ-sym abandoned t h = open_right t abandoned refl

pub open_left : (t : AddressAllocationStatus) → Differ pending t
open_left t = Differ-sym t pending (open_right t pending refl)

-- Two allocations with different ids, on ranges of a branch that do not meet, at different addresses.
abbrev pub IsApart : AddressAllocation → AddressAllocation → Type 0
IsApart a b =
    (a.id ≢ b.id)
    × (a.change ≡ b.change → (a.range.end ≤ b.range.start) ⊎ (b.range.end ≤ a.range.start))
    × Differ a.status b.status

abbrev pub AreApart : List AddressAllocation → Type 0
AreApart [] = Unit
AreApart (a ∷ rest) = All (IsApart a) rest × AreApart rest

IsApart-sym : (a b : AddressAllocation) → IsApart a b → IsApart b a
IsApart-sym a b (ids, ranges, statuses) = (
  λ e. ids (sym e),
  λ e. elim (ranges (sym e)) [ inl below ↦ inr below | inr above ↦ inl above ],
  Differ-sym a.status b.status statuses,
)

abbrev pub with_status : AddressAllocation → AddressAllocationStatus → AddressAllocation
with_status a status = record a { status = status }

-- The two ways on which a map of distinct ids is changed at its first entry.
pub insert-cases :
    (new x : AddressAllocation) (xs : List AddressAllocation)
    → new.id ≢ x.id
    → (insert new (x ∷ xs) ≡ new ∷ x ∷ xs) ⊎ (insert new (x ∷ xs) ≡ x ∷ insert new xs)
unfolding insert
insert-cases new x xs fresh = elim (Bool-cases (ltb new.id x.id)) [
  | inl before ↦ inl (if_true (ltb new.id x.id) _ _ before)
  | inr behind ↦ inr (
      if_false (ltb new.id x.id) _ _ behind
      ∙ if_false (new.id == x.id) _ _ ((false_iff (new.id == x.id) (==_iff new.id x.id)).1 fresh))
]

pub set_status-cases :
    (id : ℕ) (status : AddressAllocationStatus) (x : AddressAllocation)
    (xs : List AddressAllocation)
    → ((x.id ≡ id) × (set_status id status (x ∷ xs) ≡ with_status x status ∷ xs))
      ⊎ ((x.id ≢ id) × (set_status id status (x ∷ xs) ≡ x ∷ set_status id status xs))
unfolding set_status
set_status-cases id status x xs = elim (Bool-cases (x.id == id)) [
  | inl same ↦ inl ((==_iff x.id id).0 same, if_true (x.id == id) _ _ same)
  | inr other ↦
      inr ((false_iff (x.id == id) (==_iff x.id id)).0 other, if_false (x.id == id) _ _ other)
]

module _ {κ μ} (P : AddressAllocation → Type κ) (Q : AddressAllocation → Type μ) where
  pub All_imp :
      ((a : AddressAllocation) → P a → Q a) → (xs : List AddressAllocation) → All P xs → All Q xs
  All_imp f [] h = tt
  All_imp f (x ∷ xs) h = (f x h.0, All_imp f xs h.1)

  pub All-map-give_up :
      ((a : AddressAllocation) → P a → Q (give_up a))
      → (xs : List AddressAllocation) → All P xs
      → All Q (map give_up xs)
  All-map-give_up f [] h = tt
  All-map-give_up f (x ∷ xs) h = (f x h.0, All-map-give_up f xs h.1)

pub All-insert {κ} :
    (P : AddressAllocation → Type κ) (new : AddressAllocation) (xs : List AddressAllocation)
    → All (λ a. new.id ≢ a.id) xs
    → P new
    → All P xs
    → All P (insert new xs)
All-insert P new [] fresh p h = unfold insert in (p, tt)
All-insert P new (x ∷ xs) fresh p h = elim (insert-cases new x xs fresh.0) [
  | inl before ↦ subst (All P) (sym before) (p, h)
  | inr behind ↦ subst (All P) (sym behind) (h.0, All-insert P new xs fresh.1 p h.1)
]

pub AreApart-insert :
    (new : AddressAllocation) (xs : List AddressAllocation)
    → All (IsApart new) xs
    → AreApart xs
    → AreApart (insert new xs)
AreApart-insert new [] apart h = unfold insert in (tt, tt)
AreApart-insert new (x ∷ xs) apart h = elim (insert-cases new x xs (apart.0).0) [
  | inl before ↦ subst AreApart (sym before) (apart, h)
  | inr behind ↦ subst AreApart (sym behind) (
    All-insert (IsApart x) new xs (All_imp _ _ (λ a r. r.0) xs apart.1) (IsApart-sym new x apart.0)
        h.0,
    AreApart-insert new xs apart.1 h.1,
  )
]

pub find-some :
    (id : ℕ) (x : AddressAllocation) (xs : List AddressAllocation) {a : AddressAllocation}
    → find id (x ∷ xs) ≡ some a
    → ((x.id ≡ id) × (x ≡ a)) ⊎ ((x.id ≢ id) × (find id xs ≡ some a))
unfolding find
find-some id x xs {a = a} h = elim (Bool-cases (x.id == id)) [
  | inl same ↦
      let first : some x ≡ some a = sym (if_true (x.id == id) _ _ same) ∙ h in
      inl ((==_iff x.id id).0 same, cc)
  | inr other ↦
      inr (
        (false_iff (x.id == id) (==_iff x.id id)).0 other,
        sym (if_false (x.id == id) _ _ other) ∙ h,
      )
]

-- What is found stands in the list.
pub find-All {κ} :
    (P : AddressAllocation → Type κ) (id : ℕ) (xs : List AddressAllocation) {a : AddressAllocation}
    → find id xs ≡ some a
    → All P xs
    → P a × (a.id ≡ id)
find-All P id [] h all = unfold find in cc
find-All P id (x ∷ xs) h all = elim (find-some id x xs h) [
  | inl here ↦ (subst P here.1 all.0, ap (λ (k : AddressAllocation). k.id) (sym here.1) ∙ here.0)
  | inr there ↦ find-All P id xs there.1 all.1
]

pub find-none : (id : ℕ) (xs : List AddressAllocation) → find id xs ≡ none → All (λ a. id ≢ a.id) xs
unfolding find
find-none id [] h = tt
find-none id (x ∷ xs) h = elim (Bool-cases (x.id == id)) [
  | inl same ↦ absurd (cc (sym (if_true (x.id == id) _ _ same) ∙ h))
  | inr other ↦ (
    λ e. (false_iff (x.id == id) (==_iff x.id id)).0 other (sym e),
    find-none id xs (sym (if_false (x.id == id) _ _ other) ∙ h),
  )
]

-- Only the allocation that was found changes.
pub All-set_status {κ} :
    (P : AddressAllocation → Type κ) (id : ℕ) (status : AddressAllocationStatus)
    (xs : List AddressAllocation) {a : AddressAllocation}
    → find id xs ≡ some a
    → P (with_status a status)
    → All P xs
    → All P (set_status id status xs)
All-set_status P id status [] found new h = unfold set_status in tt
All-set_status P id status (x ∷ xs) found new h = elim (set_status-cases id status x xs) [
  | inl here ↦ subst (All P) (sym here.1) (elim (find-some id x xs found) [
    | inl same ↦ (subst (λ k. P (with_status k status)) (sym same.1) new, h.1)
    | inr other ↦ absurd (other.0 here.0)
  ])
  | inr there ↦ subst (All P) (sym there.1) (elim (find-some id x xs found) [
    | inl same ↦ absurd (there.0 same.0)
    | inr other ↦ (h.0, All-set_status P id status xs other.1 new h.1)
  ])
]

abbrev pub IsNew : AddressAllocationStatus → AddressAllocation → Type 0
IsNew status a = Differ status a.status

All_pair {κ μ} :
    (P : AddressAllocation → Type κ) (Q : AddressAllocation → Type μ) (xs : List AddressAllocation)
    → All P xs
    → All Q xs
    → All (λ a. P a × Q a) xs
All_pair P Q [] p q = tt
All_pair P Q (x ∷ xs) p q = ((p.0, q.0), All_pair P Q xs p.1 q.1)

pub AreApart-set_status :
    (id : ℕ) (status : AddressAllocationStatus) (xs : List AddressAllocation)
    {a : AddressAllocation}
    → find id xs ≡ some a
    → All (IsNew status) xs
    → AreApart xs
    → AreApart (set_status id status xs)
AreApart-set_status id status [] found new h = unfold set_status in tt
AreApart-set_status id status (x ∷ xs) found new h = elim (set_status-cases id status x xs) [
  | inl here ↦
      subst AreApart (sym here.1)
        (All_imp _ _ (λ a (r, s). (r.0, r.1, s)) xs (All_pair _ _ xs h.0 new.1), h.1)
  | inr there ↦ subst AreApart (sym there.1) (elim (find-some id x xs found) [
    | inl same ↦ absurd (there.0 same.0)
    | inr other ↦
        let (r, _) = find-All (IsApart x) id xs other.1 h.0 in
        (
          All-set_status (IsApart x) id status xs other.1
              (r.0, r.1, Differ-sym status x.status new.0) h.0,
          AreApart-set_status id status xs other.1 new.1 h.1,
        )
  ])
]

pub AreApart-map-give_up : (xs : List AddressAllocation) → AreApart xs → AreApart (map give_up xs)
AreApart-map-give_up [] h = tt
AreApart-map-give_up (x ∷ xs) h = (
  All-map-give_up (IsApart x) (IsApart (give_up x)) (λ a r. (r.0, r.1, given x.status a.status r.2))
      xs h.0,
  AreApart-map-give_up xs h.1,
)
  where
    given :
        (s t : AddressAllocationStatus)
        → Differ s t
        → Differ (if is_pending s then abandoned else s) (if is_pending t then abandoned else t)
    given (completed p) (completed q) d = d
    given (completed p) pending d = open_right (completed p) abandoned refl
    given (completed p) abandoned d = d
    given pending t d = Differ-sym _ abandoned (open_right _ abandoned refl)
    given abandoned t d = Differ-sym _ abandoned (open_right _ abandoned refl)
