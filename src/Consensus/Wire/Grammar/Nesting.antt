-- ===== src/Consensus/Wire/Grammar/Nesting.antt =====
-- The walk's table is that of the nested messages.
use quai_rust_sdk.Prelude.{
  ℕ, ◌==◌, ◌≡◌, ◌↔◌, refl, sym, ap, ◌∙◌, ◌⊎◌, inl, inr, arith, Bool, true, false, Bool-cases, ◌||◌,
  Option, none, some, some_injective, if_true, if_false, if◌then◌else◌, ==_iff,
}
use quai_rust_sdk.Consensus.Wire.{
  WireKind, transaction, access_list, access_tuple, hash, inputs, input, out_point, outputs, output,
  child,
}
use quai_rust_sdk.Consensus.Wire.Grammar.{IsChild}

-- A row of the table, and the rows behind it.
row_lem :
    (k tag : ℕ) (d c : WireKind) (others : Option WireKind)
    → (if tag == k then some d else others) ≡ some c
    → ((tag ≡ k) × (c ≡ d)) ⊎ (others ≡ some c)
row_lem k tag d c others h = by_test (tag == k) ((==_iff tag k).0) h
  where
    by_test :
        (b : Bool)
        → (b ≡ true → tag ≡ k)
        → (if b then some d else others) ≡ some c
        → ((tag ≡ k) × (c ≡ d)) ⊎ (others ≡ some c)
    by_test true is e = inl (is refl, sym (some_injective e))
    by_test false is e = inr e

row_iff :
    (k tag : ℕ) (d c : WireKind)
    → ((if tag == k then some d else none) ≡ some c) ↔ ((tag ≡ k) × (c ≡ d))
row_iff k tag d c = (
  λ h. elim (row_lem k tag d c none h) [ inl row ↦ row | inr e ↦ cc ],
  λ (e, same). if_true (tag == k) _ _ ((==_iff tag k).1 e) ∙ ap some (sym same),
)

hash_tags :
    (tag : ℕ)
    → (tag == 13 || (tag == 19 || tag == 20)) ≡ true
    → (tag ≡ 13) ⊎ ((tag ≡ 19) ⊎ (tag ≡ 20))
hash_tags tag h = ground arith

transaction_child :
    (tag : ℕ) (c : WireKind) → child transaction tag ≡ some c → IsChild transaction tag c
unfolding child
transaction_child tag c h = elim (row_lem 9 tag access_list c _ h) [
  | inl row ↦ inl row
  | inr h1 ↦ elim (Bool-cases (tag == 13 || (tag == 19 || tag == 20))) [
    | inl e ↦
        let same : c ≡ hash = sym (some_injective (sym (if_true _ _ _ e) ∙ h1)) in
        elim (hash_tags tag e) [
          | inl t ↦ inr (inl (t, same))
          | inr (inl t) ↦ inr (inr (inr (inr (inl (t, same)))))
          | inr (inr t) ↦ inr (inr (inr (inr (inr (t, same)))))
        ]
    | inr e ↦ elim (row_lem 15 tag inputs c _ (sym (if_false _ _ _ e) ∙ h1)) [
      | inl row ↦ inr (inr (inl row))
      | inr h2 ↦ inr (inr (inr (inl ((row_iff 16 tag outputs c).0 h2))))
    ]
  ]
]

child_at :
    (tag k : ℕ) (c d : WireKind)
    → tag ≡ k
    → c ≡ d
    → child transaction k ≡ some d
    → child transaction tag ≡ some c
child_at tag k c d e same h = ap (child transaction) e ∙ h ∙ ap some (sym same)

pub child_iff :
    (kind : WireKind) (tag : ℕ) (c : WireKind) → (child kind tag ≡ some c) ↔ IsChild kind tag c
unfolding child
child_iff transaction tag c = (
  transaction_child tag c,
  λ h. elim h [
    | inl (e, same) ↦ child_at tag 9 c access_list e same refl
    | inr (inl (e, same)) ↦ child_at tag 13 c hash e same refl
    | inr (inr (inl (e, same))) ↦ child_at tag 15 c inputs e same refl
    | inr (inr (inr (inl (e, same)))) ↦ child_at tag 16 c outputs e same refl
    | inr (inr (inr (inr (inl (e, same))))) ↦ child_at tag 19 c hash e same refl
    | inr (inr (inr (inr (inr (e, same))))) ↦ child_at tag 20 c hash e same refl
  ],
)
child_iff access_list tag c = row_iff 1 tag access_tuple c
child_iff access_tuple tag c = row_iff 2 tag hash c
child_iff inputs tag c = row_iff 1 tag input c
child_iff input tag c = row_iff 1 tag out_point c
child_iff out_point tag c = row_iff 1 tag hash c
child_iff outputs tag c = row_iff 1 tag output c
child_iff hash tag c = (λ h. cc, λ h. absurd h)
child_iff output tag c = (λ h. cc, λ h. absurd h)
