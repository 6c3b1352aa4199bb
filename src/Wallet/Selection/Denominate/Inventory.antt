-- ===== src/Wallet/Selection/Denominate/Inventory.antt =====
-- Counting inputs into an inventory, and the order in which outputs are drawn (selection.rs).
use quai_rust_sdk.Prelude.{
  ℕ, zero, suc, ◌+◌, ◌*◌, ◌^◌, ◌≤◌, ◌<◌, ◌≡◌, refl, List, [], ◌∷◌, length, set, length-set, arith,
  All, ◌∙◌, ap, replicate,
}
use native.Mathlib.Decide.{ℕ_discrete}
use quai_rust_sdk.Consensus.Denomination.{Denomination, IsDenomination}
use quai_rust_sdk.Wallet.Selection.Denominate.{
  at, increment, count_into, no_capacity, insert_descending, sort_descending,
}
use quai_rust_sdk.Wallet.Selection.Denominate.Worth.{
  worth, worth-set, worth-zero, weight, tally, at-set_self, at-set_ne,
}
use quai_rust_sdk.Wallet.Selection.Denominate.Split.{IsInventory}

-- Counting adds the worth of what is counted; no count wraps while fewer than 2 ^ 64 are counted.
abbrev IsCounted : ℕ → List ℕ → Type 0
IsCounted n c = (length c ≡ 15) × ((j : ℕ) → at c j ≤ n)

count_step :
    (n : ℕ) (d : Denomination) (c : List ℕ)
    → n + 1 < 2 ^ 64
    → IsDenomination d
    → IsCounted n c
    → IsCounted (n + 1) (set c d.index (increment (at c d.index)))
count_step n d c h valid (size, few) = (
  length-set c d.index (increment (at c d.index)) ∙ size,
  λ j. elim (ℕ_discrete d.index j) [
    | yes same ↦ rw (← same) (
        omega
          (arith, at-set_self c d.index (increment (at c d.index)) (rw size valid), few d.index))
    | no other ↦ omega (arith, at-set_ne c d.index j (increment (at c d.index)) other, few j)
  ],
)

count_step_worth :
    (n k : ℕ) (d : Denomination) (c : List ℕ)
    → n + 1 < 2 ^ 64
    → IsDenomination d
    → IsCounted n c
    → worth k (set c d.index (increment (at c d.index))) ≡ worth k c + weight k d.index
count_step_worth n k d c h valid (size, few) = omega (
  arith,
  worth-set k d.index (increment (at c d.index)) c (rw size valid),
  times_suc (at c d.index) (weight k d.index),
  ap (λ (x : ℕ). x * weight k d.index) (increment_lem (at c d.index) (few d.index)),
)
  where
    increment_lem : (x : ℕ) → x ≤ n → increment x ≡ x + 1
    increment_lem x p = omega arith

    times_suc : (x w : ℕ) → (x + 1) * w ≡ x * w + w
    times_suc x w = omega arith

pub count_into_lem :
    (ds : List Denomination) (n : ℕ) (c : List ℕ)
    → n + length ds < 2 ^ 64
    → All IsDenomination ds
    → IsCounted n c
    → IsInventory (count_into ds c) × ((k : ℕ) → worth k (count_into ds c) ≡ worth k c + tally k ds)
unfolding count_into tally
count_into_lem [] n c h valid counted =
    (record { size = counted.0; bounded = λ j. omega (arith, counted.1 j) }, λ k. omega arith)
count_into_lem (d ∷ ds) n c h valid counted =
    let next : List ℕ = set c d.index (increment (at c d.index)) in
    let (inventory, total) =
      count_into_lem ds (n + 1) next (omega arith) valid.1
        (count_step n d c (omega arith) valid.0 counted) in
    (inventory, λ k. omega (arith, total k, count_step_worth n k d c (omega arith) valid.0 counted))

at-replicate : (n j : ℕ) → at (replicate n 0) j ≡ 0
at-replicate zero j = refl
at-replicate (suc n) zero = refl
at-replicate (suc n) (suc j) = at-replicate n j

-- The inventory of a list of inputs.
pub inputs_lem :
    (ds : List Denomination)
    → length ds < 2 ^ 64
    → All IsDenomination ds
    → IsInventory (count_into ds no_capacity)
      × ((k : ℕ) → worth k (count_into ds no_capacity) ≡ tally k ds)
inputs_lem ds h valid =
    let (inventory, total) =
      count_into_lem ds 0 no_capacity (omega arith) valid
        (refl, λ j. omega (arith, at-replicate 15 j)) in
    (inventory, λ k. omega (arith, total k, worth-zero k no_capacity (λ l _. at-replicate 15 l)))

tally-insert :
    (k : ℕ) (d : Denomination) (ds : List Denomination)
    → tally k (insert_descending d ds) ≡ weight k d.index + tally k ds
unfolding insert_descending tally
tally-insert k d [] = refl
tally-insert k d (e ∷ es) = ground (arith, tally-insert k d es)

pub tally-sort : (k : ℕ) (ds : List Denomination) → tally k (sort_descending ds) ≡ tally k ds
unfolding sort_descending tally
tally-sort k [] = refl
tally-sort k (d ∷ ds) = omega (arith, tally-insert k d (sort_descending ds), tally-sort k ds)

-- Indices fall along the list, from below `b`.
abbrev pub Descends : ℕ → List Denomination → Type 0
Descends b [] = Unit {0}
Descends b (d ∷ ds) = (d.index ≤ b) × Descends d.index ds

insert-Descends :
    (b : ℕ) (d : Denomination) (ds : List Denomination)
    → d.index ≤ b
    → Descends b ds
    → Descends b (insert_descending d ds)
unfolding insert_descending
insert-Descends b d [] h s = (h, tt)
insert-Descends b d (e ∷ es) h s = ground (arith, insert-Descends e.index d es)

pub sort-Descends :
    (b : ℕ) (ds : List Denomination) → All (λ d. d.index ≤ b) ds → Descends b (sort_descending ds)
unfolding sort_descending
sort-Descends b [] h = tt
sort-Descends b (d ∷ ds) h = insert-Descends b d (sort_descending ds) h.0 (sort-Descends b ds h.1)
