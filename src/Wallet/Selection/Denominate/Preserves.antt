-- ===== src/Wallet/Selection/Denominate/Preserves.antt =====
-- `preserves_denominations` decides the node's rule on denominations (selection.rs).
use quai_rust_sdk.Prelude.{
  ℕ, suc, ◌≤◌, ◌<◌, ◌≡◌, inl, inr, ◌↔◌, List, [], ◌∷◌, length, arith, All, ok, err, Result,
  Bool-cases, Bool, ◌||◌, ltb, le→not_ltb, ◌∙◌,
}
use quai_rust_sdk.Consensus.Denomination.{Denomination, IsDenomination}
use quai_rust_sdk.Wallet.Selection.Types.{SelectionError}
use quai_rust_sdk.Wallet.Selection.Denominate.{
  is_empty, draw_each, insert_descending, count_into, no_capacity, sort_descending,
  preserves_denominations,
}
use quai_rust_sdk.Wallet.Selection.Denominate.Worth.{tally}
use quai_rust_sdk.Wallet.Selection.Denominate.Inventory.{inputs_lem, tally-sort, sort-Descends}
use quai_rust_sdk.Wallet.Selection.Denominate.Draw.{draw_each_complete, draw_each_sound}

abbrev over_limits : List Denomination → List Denomination → Bool
over_limits inputs outputs =
    is_empty inputs || (ltb 4096 (length inputs) || ltb 4096 (length outputs))

-- The guard passes within the limits, and the loop follows.
within_limits :
    (inputs outputs : List Denomination)
    → 0 < length inputs
    → length inputs ≤ 4096
    → length outputs ≤ 4096
    → preserves_denominations inputs outputs
      ≡ draw_each (sort_descending outputs) (count_into inputs no_capacity)
unfolding preserves_denominations
within_limits [] outputs h p q = elim h [ ]
within_limits (d ∷ ds) outputs h p q =
    rw (le→not_ltb (suc (length ds)) 4096 p, le→not_ltb (length outputs) 4096 q)

limits_passed :
    (inputs outputs : List Denomination)
    → preserves_denominations inputs outputs ≡ ok tt
    → (0 < length inputs)
      × (length inputs ≤ 4096)
      × (length outputs ≤ 4096)
      × (draw_each (sort_descending outputs) (count_into inputs no_capacity) ≡ ok tt)
unfolding preserves_denominations
limits_passed [] outputs h = cc
limits_passed (d ∷ ds) outputs h = elim (Bool-cases (over_limits (d ∷ ds) outputs)) [
  | inl over ↦ absurd (failed (rw over at h))
  | inr fine ↦ (omega arith, ground arith, ground arith, rw fine at h)
]
  where
    failed : {x : SelectionError} → ◌≡◌ {A = Result SelectionError (Unit {0})} (err x) (ok tt) → ⊥
    failed h = cc

insert-All :
    (d : Denomination) (ds : List Denomination)
    → IsDenomination d
    → All IsDenomination ds
    → All IsDenomination (insert_descending d ds)
unfolding insert_descending
insert-All d [] h v = (h, tt)
insert-All d (e ∷ es) h v = ground (arith, insert-All d es)

sort-All :
    (ds : List Denomination) → All IsDenomination ds → All IsDenomination (sort_descending ds)
unfolding sort_descending
sort-All [] v = tt
sort-All (d ∷ ds) v = insert-All d (sort_descending ds) v.0 (sort-All ds v.1)

-- On valid denominations, `preserves_denominations` accepts exactly when there is an input, neither
-- list is longer than 4096, and for each `k` the outputs of denomination `k` and above are worth no
-- more than the inputs of denomination `k` and above.
pub preserves_denominations_iff :
    (inputs outputs : List Denomination)
    → All IsDenomination inputs
    → All IsDenomination outputs
    → (preserves_denominations inputs outputs ≡ ok tt) ↔ (
        (0 < length inputs)
        × (length inputs ≤ 4096)
        × (length outputs ≤ 4096)
        × ((k : ℕ) → tally k outputs ≤ tally k inputs))
preserves_denominations_iff inputs outputs vi vo = (sound, complete)
  where
    below : (ds : List Denomination) → All IsDenomination ds → All (λ d. d.index ≤ 14) ds
    below [] v = tt
    below (d ∷ ds) v = (omega arith, below ds v.1)

    sound :
        preserves_denominations inputs outputs ≡ ok tt
        → (0 < length inputs)
          × (length inputs ≤ 4096)
          × (length outputs ≤ 4096)
          × ((k : ℕ) → tally k outputs ≤ tally k inputs)
    sound h =
        let (some_input, few, fewer, drawn) = limits_passed inputs outputs h in
        let (inv, total) = inputs_lem inputs (omega arith) vi in
        (
          some_input,
          few,
          fewer,
          λ k. omega (
            arith,
            total k,
            tally-sort k outputs,
            draw_each_sound (sort_descending outputs) _ inv drawn k,
          ),
        )

    complete :
        (0 < length inputs)
          × (length inputs ≤ 4096)
          × (length outputs ≤ 4096)
          × ((k : ℕ) → tally k outputs ≤ tally k inputs)
        → preserves_denominations inputs outputs ≡ ok tt
    complete (some_input, few, fewer, covered) =
        let (inv, total) = inputs_lem inputs (omega arith) vi in
        within_limits inputs outputs some_input few fewer
        ∙ draw_each_complete (sort_descending outputs) 14 _ inv (sort-All outputs vo)
            (sort-Descends 14 outputs (below outputs vo))
            (λ k _. omega (arith, total k, tally-sort k outputs, covered k))
