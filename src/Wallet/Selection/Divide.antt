-- ===== src/Wallet/Selection/Divide.antt =====
-- The division loop that aggregation builds its outputs with (selection.rs, `SweepMode::Aggregate`,
-- and selection/aggregation.rs). It counts the units of a denomination by one division, where
-- `denominate_largest` takes them one by one.
use quai_rust_sdk.Prelude.{
  ℕ, zero, suc, ◌+◌, ◌-◌, ◌*◌, ◌/◌, ◌%◌, ◌≤◌, ◌<◌, ◌≡◌, refl, ap, sym, subst, ◌∙◌, List, [], ◌++◌,
  length, replicate, All, All-append, arith, ok, err, ltb, ltb→lt, not_ltb→le, le→leb, lt→not_leb,
  Bool-cases, inl, inr, ok-injective, ◌>>=◌, ◌>>◌, reject_if, Result, >>=-eq-ok, reject_if-ok,
}
use native.Mathlib.Nat.{mod-lt, div-add-mod'}
use quai_rust_sdk.Consensus.Denomination.{Denomination, new, value, value_at, new_lem}
use quai_rust_sdk.Wallet.Selection.Types.{SelectionError, limit_exceeded, or_invalid_coin}
use quai_rust_sdk.Wallet.Selection.Denominate.{
  Taken, push_all, largest_units, largest_levels, denominate_largest,
}
use quai_rust_sdk.Wallet.Selection.Denominate.Worth.{tally, value_at-pos}
use quai_rust_sdk.Wallet.Selection.Denominate.Take.{unit_of}
use quai_rust_sdk.Wallet.Selection.Denominate.Largest.{IsPaid, largest_levels_lem}

-- `for index in (0..n).rev()`; `room` is `max_outputs - outputs.len()`.
unfoldable pub by_division : ℕ → ℕ → ℕ → Result SelectionError (List Denomination)
by_division zero room v = ok []
by_division (suc i) room v = do
  d ← or_invalid_coin (new i)
  reject_if (ltb room (v / value d)) limit_exceeded
  rest ← by_division i (room - v / value d) (v % value d)
  ok (replicate (v / value d) d ++ rest)

pub length-replicate : (n : ℕ) (d : Denomination) → length (replicate n d) ≡ n
length-replicate zero d = refl
length-replicate (suc n) d = omega (arith, length-replicate n d)

minus_zero : (n : ℕ) → n - 0 ≡ n
minus_zero n = omega arith

minus_suc : (m n : ℕ) → suc m - suc n ≡ m - n
minus_suc m n = omega arith

-- `count` units and a rest below one unit: the loop of `denominate_largest` stops with that rest.
largest_units_count :
    (i count rest room v : ℕ)
    → rest < value_at i
    → count ≤ room
    → v ≡ count * value_at i + rest
    → largest_units (unit_of i) room v
      ≡ ok (record {
        outputs = replicate count (unit_of i);
        room = room - count;
        value = rest;
        capacity = [];
      })
unfolding largest_units
largest_units_count i zero rest zero v small h e =
    let all : v ≡ rest = omega arith in
    rw (lt→not_leb (value_at i) v (omega arith), largest_units) (rw all refl)
largest_units_count i zero rest (suc room) v small h e =
    let all : v ≡ rest = omega arith in
    rw (lt→not_leb (value_at i) v (omega arith), largest_units)
      (rw (all, minus_zero (suc room)) refl)
largest_units_count i (suc count) rest zero v small h e = absurd (omega arith)
largest_units_count i (suc count) rest (suc room) v small h e =
    rw (le→leb (value_at i) v (omega arith), largest_units)
      (rw (largest_units_count i count rest room (v - value_at i) small (omega arith) (omega arith))
        (rw (minus_suc room count) refl))

largest_units_full :
    (i count rest room v : ℕ)
    → room < count
    → v ≡ count * value_at i + rest
    → largest_units (unit_of i) room v ≡ err limit_exceeded
unfolding largest_units
largest_units_full i zero rest room v h e = absurd (omega arith)
largest_units_full i (suc count) rest zero v h e =
    rw (le→leb (value_at i) v (omega arith), largest_units) refl
largest_units_full i (suc count) rest (suc room) v h e =
    rw (le→leb (value_at i) v (omega arith), largest_units)
      (rw (largest_units_full i count rest room (v - value_at i) (omega arith) (omega arith)) refl)

abbrev bind_levels : ℕ → Taken → Result SelectionError Taken
bind_levels i t = largest_levels i t.room t.value >>= λ rest. ok (push_all t.outputs rest)

levels_round :
    (i room v : ℕ)
    → i < 15
    → largest_levels (suc i) room v ≡ (largest_units (unit_of i) room v >>= bind_levels i)
unfolding largest_levels
levels_round i room v h = rw (new_lem i h)

abbrev outputs_of : Result SelectionError Taken → Result SelectionError (List Denomination)
outputs_of r = r >>= λ t. ok t.outputs

join_outputs :
    (ds : List Denomination) (r : Result SelectionError Taken)
    → (outputs_of r >>= λ rest. ok (ds ++ rest)) ≡ outputs_of (r >>= λ rest. ok (push_all ds rest))
join_outputs ds (ok t) = refl
join_outputs ds (err e) = refl

-- One round, for a valid denomination.
division_round :
    (i room v : ℕ)
    → i < 15
    → by_division (suc i) room v ≡ (
        reject_if (ltb room (v / value_at i)) limit_exceeded
        >> (by_division i (room - v / value_at i) (v % value_at i) >>= λ rest.
            ok (replicate (v / value_at i) (unit_of i) ++ rest)))
unfolding by_division
division_round i room v h = rw (new_lem i h)

-- The loops over the denominations agree.
by_division-levels :
    (n room v : ℕ) → n ≤ 15 → by_division n room v ≡ outputs_of (largest_levels n room v)
by_division-levels zero room v h = unfold by_division largest_levels in refl
by_division-levels (suc i) room v h =
    rw (division_round i room v h, levels_round i room v h)
      (elim (Bool-cases (ltb room (v / value_at i))) [
        | inl e ↦
            rw
              (
                e,
                largest_units_full i (v / value_at i) (v % value_at i) room v (ltb→lt _ _ e)
                    (sym (div-add-mod' v (value_at i))),
              )
              refl
        | inr e ↦
            rw
              (
                e,
                largest_units_count i (v / value_at i) (v % value_at i) room v
                    (mod-lt v (value_at-pos i h)) (not_ltb→le _ _ e)
                    (sym (div-add-mod' v (value_at i))),
              )
              (rw (by_division-levels i (room - v / value_at i) (v % value_at i) (omega arith)) (
                join_outputs (replicate (v / value_at i) (unit_of i))
                  (largest_levels i (room - v / value_at i) (v % value_at i))))
      ])

-- Building outputs by division pays the same as `denominate_largest`, for every value and limit.
pub by_division-eq-largest :
    (v max_outputs : ℕ) → by_division 15 max_outputs v ≡ denominate_largest v max_outputs
unfolding denominate_largest
by_division-eq-largest v max_outputs =
    by_division-levels 15 max_outputs v (omega arith)
    ∙ (elim (largest_levels_lem 15 max_outputs v (omega arith)) [
      | inl (full, more) ↦ rw full refl
      | inr (t, e, paid, done) ↦
          let zero_left : t.value ≡ 0 = done (omega arith) in rw e (rw zero_left refl)
    ])

-- What a division pays: the value, within the room, in the denominations below `n`.
pub record IsDivided (n room v : ℕ) (outputs : List Denomination) : Type 0 where
  pub exact : tally 0 outputs ≡ v
  pub within : length outputs ≤ room
  pub below : All (λ d. d.index < n) outputs

All-replicate :
    (count i bound : ℕ) → i < bound → All (λ d. d.index < bound) (replicate count (unit_of i))
All-replicate zero i bound h = tt
All-replicate (suc count) i bound h = (h, All-replicate count i bound h)

below_bound :
    (n bound room v : ℕ) {outputs : List Denomination}
    → n ≤ 15
    → n ≤ bound
    → by_division n room v ≡ ok outputs
    → All (λ d. d.index < bound) outputs
unfolding by_division
below_bound zero bound room v small le h = subst (All (λ d. d.index < bound)) (ok-injective h) tt
below_bound (suc i) bound room v small le h =
    let (_, h₁) =
      reject_if-ok (ltb room (v / value_at i)) limit_exceeded _
        (sym (division_round i room v small) ∙ h) in
    let (rest, divided, h₂) =
      >>=-eq-ok (by_division i (room - v / value_at i) (v % value_at i)) _ h₁ in
    subst (All (λ d. d.index < bound)) (ok-injective h₂) (
      All-append (λ d. d.index < bound) (replicate (v / value_at i) (unit_of i)) rest
        (All-replicate (v / value_at i) i bound (omega arith))
        (below_bound i bound (room - v / value_at i) (v % value_at i) {outputs = rest} (omega arith)
          (omega arith) divided))

pub by_division-IsDivided :
    (n room v : ℕ) {outputs : List Denomination}
    → 0 < n
    → n ≤ 15
    → by_division n room v ≡ ok outputs
    → IsDivided n room v outputs
by_division-IsDivided n room v {outputs} some small h =
    let (t, e, r) =
      >>=-eq-ok (largest_levels n room v) _ (sym (by_division-levels n room v small) ∙ h) in
    elim (largest_levels_lem n room v small) [
      | inl (full, more) ↦ cc
      | inr (t', e', paid, done) ↦
          divided t t' outputs (ok-injective (sym e ∙ e')) (ok-injective r) paid (done some)
            (below_bound n n room v {outputs = outputs} small (omega arith) h)
    ]
  where
    divided :
        (t t' : Taken) (outputs : List Denomination)
        → t ≡ t'
        → t.outputs ≡ outputs
        → IsPaid room v t'
        → t'.value ≡ 0
        → All (λ d. d.index < n) outputs
        → IsDivided n room v outputs
    divided t t' outputs same eq paid zero_left below =
        let e : t'.outputs ≡ outputs = sym (ap (λ t. t.outputs) same) ∙ eq in
        record {
          exact = subst (λ ds. tally 0 ds ≡ v) e (omega (arith, paid.paid));
          within = subst (λ ds. length ds ≤ room) e (omega (arith, paid.counted));
          below = below;
        }
