-- ===== src/Wallet/Selection/Denominate/Draw.antt =====
-- The loop of `preserves_denominations`: outputs in falling order, each drawn as itself.
use quai_rust_sdk.Prelude.{
  ℕ, zero, suc, ◌+◌, ◌-◌, ◌≤◌, ◌<◌, ◌≡◌, refl, inl, inr, List, [], ◌∷◌, arith, All, ok, err, Result,
  >>=-ok, lt→not_leb, not, Bool-cases, true, ◌>>◌, reject_if, ==_iff, ◌∙◌, ◌==◌,
}
use native.Mathlib.Decide.{ℕ_discrete}
use quai_rust_sdk.Consensus.Denomination.{Denomination, value_at, IsDenomination}
use quai_rust_sdk.Wallet.Selection.Types.{SelectionError, invalid_request}
use quai_rust_sdk.Wallet.Selection.Denominate.{
  Taken, push_all, source_for, take_units, take_levels, denominate_available, is_single, draw_each,
}
use quai_rust_sdk.Wallet.Selection.Denominate.Worth.{
  weight, worth, tally, weight_self, value_at-pos, value_at-lt,
}
use quai_rust_sdk.Wallet.Selection.Denominate.Split.{
  IsInventory, IsFirst, IsSplit, split_down-IsSplit,
}
use quai_rust_sdk.Wallet.Selection.Denominate.Take.{
  unit_of, spent, spent_worth, spent-IsInventory, source_for_lem, take_units_round,
  take_levels_round,
}
use quai_rust_sdk.Wallet.Selection.Denominate.Available.{denominate_available_lem}
use quai_rust_sdk.Wallet.Selection.Denominate.Inventory.{Descends}

abbrev stop_at : ℕ → ℕ → List ℕ → Taken
stop_at room v c = record { outputs = []; room = room; value = v; capacity = c }

-- A denomination above the value takes nothing.
take_units_skip :
    (i room v : ℕ) (c : List ℕ)
    → v < value_at i
    → take_units i (unit_of i) room v c ≡ ok (stop_at room v c)
unfolding take_units source_for
take_units_skip i zero v c h = rw (lt→not_leb _ _ h, take_units, source_for)
take_units_skip i (suc room) v c h = rw (lt→not_leb _ _ h, take_units, source_for)

take_levels_skip :
    (i room v : ℕ) (c : List ℕ)
    → i < 15
    → v < value_at i
    → take_levels (suc i) room v c ≡ take_levels i room v c
take_levels_skip i room v c b h =
    take_levels_round i room v c b
    ∙ rw (take_units_skip i room v c h) (>>=-ok (take_levels i room v c))

take_levels_above :
    (n o room : ℕ) (c : List ℕ)
    → o < n
    → n ≤ 15
    → take_levels n room (value_at o) c ≡ take_levels (suc o) room (value_at o) c
take_levels_above zero o room c h b = elim h [ ]
take_levels_above (suc i) o room c h b = elim (ℕ_discrete i o) [
  | yes same ↦ rw same
  | no other ↦
      take_levels_skip i room (value_at o) c b (value_at-lt o i (omega arith) b)
      ∙ take_levels_above i o room c (omega arith) (omega arith)
]

take_levels_zero :
    (n room : ℕ) (c : List ℕ) → n ≤ 15 → take_levels n room 0 c ≡ ok (stop_at room 0 c)
take_levels_zero zero room c b = unfold take_levels in refl
take_levels_zero (suc i) room c b =
    take_levels_skip i room 0 c b (value_at-pos i b) ∙ take_levels_zero i room c (omega arith)

-- With something from `o` on, one unit of `o` is drawn, and nothing else.
take_single :
    (o : ℕ) (c : List ℕ)
    → IsInventory c
    → o < 15
    → 0 < worth o c
    → (c' : List ℕ) × (take_units o (unit_of o) 1 (value_at o) c
        ≡ ok (push_all (unit_of o ∷ []) (stop_at 0 0 (spent o c'))))
      × IsSplit o c c'
take_single o c inv h some_left = elim (source_for_lem o (value_at o) c inv h) [
  | inl (_, inl small) ↦ absurd (omega arith)
  | inl (_, inr empty) ↦ absurd (omega arith)
  | inr (s, e, enough, first, below) ↦
      let (c', split, is_split) =
        split_down-IsSplit o (s - o) c inv (omega (arith, first.above)) (first_at s first) in
      (
        c',
        take_units_round o 0 (value_at o) s c c' e split
            ∙ rw (sub_self (value_at o))
                (rw (take_units_skip o 0 0 (spent o c') (value_at-pos o h))),
        is_split,
      )
]
  where
    sub_self : (x : ℕ) → x - x ≡ 0
    sub_self x = omega arith

    add_sub : (s : ℕ) → o ≤ s → o + (s - o) ≡ s
    add_sub s p = omega arith

    first_at : (s : ℕ) → IsFirst c o s → IsFirst c o (o + (s - o))
    first_at s first = rw (add_sub s first.above) first

-- So one output of the value of `o` is `o` itself, at the cost of its value from every `k` up to `o`.
draw_single :
    (o : ℕ) (c : List ℕ)
    → IsInventory c
    → o < 15
    → 0 < worth o c
    → (after : List ℕ) × (denominate_available (value_at o) c 1 ≡ ok (unit_of o ∷ [], after))
      × IsInventory after
      × ((k : ℕ) → k ≤ o → worth k after + value_at o ≡ worth k c)
unfolding denominate_available
draw_single o c inv h some_left =
    let (c', e, s) = take_single o c inv h some_left in
    (
      spent o c',
      rw (levels c' e),
      spent-IsInventory o c' s.inventory h,
      λ k p.
          omega
            (arith, s.worth-eq k p, spent_worth o k c' s.inventory h s.positive, weight_self k o p),
    )
  where
    levels :
        (c' : List ℕ)
        → take_units o (unit_of o) 1 (value_at o) c
          ≡ ok (push_all (unit_of o ∷ []) (stop_at 0 0 (spent o c')))
        → take_levels 15 1 (value_at o) c
          ≡ ok (push_all (unit_of o ∷ []) (stop_at 0 0 (spent o c')))
    levels c' e =
        take_levels_above 15 o 1 c h (omega arith)
        ∙ take_levels_round o 1 (value_at o) c h
        ∙ rw e (rw (take_levels_zero o 0 (spent o c') (omega arith)))

-- Completeness of the loop: outputs in falling order that the inventory covers are all drawn.
pub draw_each_complete :
    (os : List Denomination) (b : ℕ) (c : List ℕ)
    → IsInventory c
    → All IsDenomination os
    → Descends b os
    → ((k : ℕ) → k ≤ b → tally k os ≤ worth k c)
    → draw_each os c ≡ ok tt
unfolding draw_each tally
draw_each_complete [] b c inv valid falls covered = refl
draw_each_complete (o ∷ os) b c inv valid falls covered =
    let (after, e, inv', cost) = draw_single o.index c inv valid.0 enough in
    rw e (
      rw (same o.index) (
        draw_each_complete os o.index after inv' valid.1 falls.1 λ k p.
          omega (arith, covered k (omega (arith, falls.0)), cost k p, weight_self k o.index p)))
  where
    same : (x : ℕ) → (x == x) ≡ true
    same x = ground arith

    enough : 0 < worth o.index c
    enough = omega (
      arith,
      covered o.index falls.0,
      weight_self o.index o.index (omega arith),
      value_at-pos o.index valid.0,
    )

is_single-tally :
    (k : ℕ) (o : Denomination) (ds : List Denomination)
    → is_single o ds ≡ true
    → tally k ds ≡ weight k o.index
unfolding tally
is_single-tally k o [] h = cc
is_single-tally k o (d ∷ []) h = rw ((==_iff d.index o.index).0 h) (omega arith)
is_single-tally k o (d ∷ e ∷ es) h = cc

-- Soundness: what was drawn was covered.
pub draw_each_sound :
    (os : List Denomination) (c : List ℕ)
    → IsInventory c
    → draw_each os c ≡ ok tt
    → (k : ℕ) → tally k os ≤ worth k c
unfolding draw_each tally
draw_each_sound [] c inv h k = omega arith
draw_each_sound (o ∷ os) c inv h k = elim (denominate_available_lem (value_at o.index) c 1 inv) [
  | inl (outputs, after, e, payment) ↦
      let rest = checked outputs after (rw e at h) in
      omega (
        arith,
        is_single-tally k o outputs rest.0,
        payment.drawn k,
        draw_each_sound os after payment.inventory rest.1 k,
      )
  | inr (inl (e, more)) ↦ absurd (failed (rw e at h))
  | inr (inr (e, more)) ↦ absurd (failed (rw e at h))
]
  where
    failed : {x : SelectionError} → ◌≡◌ {A = Result SelectionError (Unit {0})} (err x) (ok tt) → ⊥
    failed h = cc

    checked :
        (outputs : List Denomination) (after : List ℕ)
        → (reject_if (not (is_single o outputs)) invalid_request >> draw_each os after) ≡ ok tt
        → (is_single o outputs ≡ true) × (draw_each os after ≡ ok tt)
    checked outputs after r = elim (Bool-cases (is_single o outputs)) [
      | inl single ↦ (single, rw single at r)
      | inr other ↦ absurd (failed (rw other at r))
    ]
