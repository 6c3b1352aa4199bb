-- ===== src/Wallet/Allocation/Journal/Some.antt =====
-- Some allocation of a journal has a property, under the operations of the map
-- (crates/quai-wallet/src/allocation.rs).
use quai_rust_sdk.Prelude.{
  ℕ, List, [], ◌∷◌, map, All, some, ◌≡◌, sym, ap, ◌∙◌, subst, ◌≢◌, ◌⊎◌, inl, inr,
}
use quai_rust_sdk.Wallet.Metadata.{PublicAddress}
use quai_rust_sdk.Wallet.Allocation.{
  AddressAllocation, AddressAllocationStatus, completed, find, insert, set_status, give_up,
}
use quai_rust_sdk.Wallet.Allocation.Journal.{
  Differ, IsApart, AreApart, insert-cases, set_status-cases, with_status, find-some,
}

-- Some allocation of the list has a property.
unfoldable pub Any : (AddressAllocation → Type 0) → List AddressAllocation → Type 0
Any P [] = ⊥
Any P (a ∷ rest) = P a ⊎ Any P rest

module _ (P : AddressAllocation → Type 0) where
  pub Any-insert :
      (new : AddressAllocation) (xs : List AddressAllocation)
      → All (λ a. new.id ≢ a.id) xs
      → P new ⊎ Any P xs
      → Any P (insert new xs)
  unfolding Any
  Any-insert new [] fresh h = unfold insert in h
  Any-insert new (x ∷ xs) fresh h = elim (insert-cases new x xs fresh.0) [
    | inl before ↦ subst (Any P) (sym before) h
    | inr behind ↦ subst (Any P) (sym behind) (elim h [
      | inl here ↦ inr (Any-insert new xs fresh.1 (inl here))
      | inr h ↦ elim h [
        | inl first ↦ inl first
        | inr later ↦ inr (Any-insert new xs fresh.1 (inr later))
      ]
    ])
  ]

  pub Any-map-give_up :
      ((a : AddressAllocation) → P a → P (give_up a))
      → (xs : List AddressAllocation) → Any P xs
      → Any P (map give_up xs)
  unfolding Any
  Any-map-give_up keep [] h = elim h [ ]
  Any-map-give_up keep (x ∷ xs) h = elim h [
    | inl here ↦ inl (keep x here)
    | inr there ↦ inr (Any-map-give_up keep xs there)
  ]

  pub Any-found :
      (id : ℕ) (xs : List AddressAllocation) {a : AddressAllocation}
      → find id xs ≡ some a
      → P a
      → Any P xs
  unfolding Any
  Any-found id [] h p = unfold find in cc
  Any-found id (x ∷ xs) h p = elim (find-some id x xs h) [
    | inl here ↦ inl (subst P (sym here.1) p)
    | inr there ↦ inr (Any-found id xs there.1 p)
  ]

  -- Only the allocation that was found changes.
  pub Any-set_status :
      (id : ℕ) (status : AddressAllocationStatus) (xs : List AddressAllocation)
      {a : AddressAllocation}
      → find id xs ≡ some a
      → (P a → P (with_status a status))
      → P (with_status a status) ⊎ Any P xs
      → Any P (set_status id status xs)
  unfolding Any
  Any-set_status id status [] h keep held = unfold find in cc
  Any-set_status id status (x ∷ xs) h keep held = elim (set_status-cases id status x xs) [
    | inl here ↦ subst (Any P) (sym here.1) (elim (find-some id x xs h) [
      | inl found ↦
          let same = ap (λ k. with_status k status) (sym found.1) in
          elim held [
            | inl changed ↦ inl (subst P same changed)
            | inr held ↦ elim held [
              | inl first ↦ inl (subst P same (keep (subst P found.1 first)))
              | inr later ↦ inr later
            ]
          ]
      | inr found ↦ absurd (found.0 here.0)
    ])
    | inr there ↦ subst (Any P) (sym there.1) (elim (find-some id x xs h) [
      | inl found ↦ absurd (there.0 found.0)
      | inr found ↦ elim held [
        | inl changed ↦ inr (Any-set_status id status xs found.1 keep (inl changed))
        | inr held ↦ elim held [
          | inl first ↦ inl first
          | inr later ↦ inr (Any-set_status id status xs found.1 keep (inr later))
        ]
      ]
    ])
  ]

  Any-All {μ} :
      (Q : AddressAllocation → Type μ) (xs : List AddressAllocation)
      → All Q xs
      → Any P xs
      → (a : AddressAllocation) × P a × Q a
  unfolding Any
  Any-All Q [] all h = elim h [ ]
  Any-All Q (x ∷ xs) all h = elim h [
    | inl here ↦ (x, here, all.0)
    | inr there ↦ Any-All Q xs all.1 there
  ]

-- The address that an id holds.
abbrev pub IsHolder : ℕ → PublicAddress → AddressAllocation → Type 0
IsHolder id p a = (a.id ≡ id) × (a.status ≡ completed p)

clash :
    (p q : PublicAddress) (x : AddressAllocation) (xs : List AddressAllocation) (k : ℕ)
    → All (IsApart x) xs
    → x.status ≡ completed p
    → Any (IsHolder k q) xs
    → p.address ≢ q.address
unfolding Differ
clash p q x xs k apart e held =
    let (b, (_, f), r) = Any-All (IsHolder k q) (IsApart x) xs apart held in
    differ x.status b.status r.2 e f
  where
    differ :
        (s t : AddressAllocationStatus)
        → Differ s t
        → s ≡ completed p
        → t ≡ completed q
        → p.address ≢ q.address
    differ s t d e f = subst (λ u. Differ u (completed q)) e (subst (Differ s) f d)

-- One address is held by one id.
pub holder_unique :
    (i j : ℕ) (p q : PublicAddress) (xs : List AddressAllocation)
    → AreApart xs
    → Any (IsHolder i p) xs
    → Any (IsHolder j q) xs
    → p.address ≡ q.address
    → i ≡ j
unfolding Any
holder_unique i j p q [] apart h k same = elim h [ ]
holder_unique i j p q (x ∷ xs) apart h k same = elim h [
  | inl here ↦ elim k [
    | inl also ↦ sym here.0 ∙ also.0
    | inr there ↦ absurd (clash p q x xs j apart.0 here.1 there same)
  ]
  | inr there ↦ elim k [
    | inl here ↦ absurd (clash q p x xs i apart.0 here.1 there (sym same))
    | inr also ↦ holder_unique i j p q xs apart.1 there also same
  ]
]
