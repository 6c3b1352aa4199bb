-- ===== src/Wallet/Selection/Denominate/Largest.antt =====
-- What `denominate_largest` answers, on every branch (selection.rs).
use quai_rust_sdk.Prelude.{
  ℕ, zero, suc, ◌+◌, ◌-◌, ◌≤◌, ◌<◌, ◌≡◌, refl, ◌⊎◌, inl, inr, List, [], ◌∷◌, length, length-append,
  arith, ok, err, Result, leb, leb→le, not_leb→lt, Bool-cases, ◌>>=◌, subst, sym, ◌∙◌, ok-injective,
}
use quai_rust_sdk.Consensus.Denomination.{Denomination, value_at, new_lem}
use quai_rust_sdk.Wallet.Selection.Types.{SelectionError, limit_exceeded}
use quai_rust_sdk.Wallet.Selection.Denominate.{
  Taken, push_all, largest_units, largest_levels, denominate_largest,
}
use quai_rust_sdk.Wallet.Selection.Denominate.Worth.{tally, tally-append, weight_self, value_at-pos}
use quai_rust_sdk.Wallet.Selection.Denominate.Take.{unit_of}

-- What a loop has paid and counted.
pub record IsPaid (room v : ℕ) (t : Taken) : Type 0 where
  pub paid : t.value + tally 0 t.outputs ≡ v
  pub counted : t.room + length t.outputs ≡ room
  pub worthy : length t.outputs ≤ tally 0 t.outputs

stop-IsPaid :
    (room v : ℕ) → IsPaid room v (record { outputs = []; room = room; value = v; capacity = [] })
unfolding tally
stop-IsPaid room v = record { paid = omega arith; counted = omega arith; worthy = omega arith }

push-IsPaid :
    (i room v : ℕ) (rest : Taken)
    → i < 15
    → value_at i ≤ v
    → IsPaid room (v - value_at i) rest
    → IsPaid (suc room) v (push_all (unit_of i ∷ []) rest)
unfolding tally
push-IsPaid i room v rest h enough r =
    omega (arith, r.paid, r.counted, r.worthy, weight_self 0 i (omega arith), value_at-pos i h)

append-IsPaid :
    (room v : ℕ) (t rest : Taken)
    → IsPaid room v t
    → IsPaid t.room t.value rest
    → IsPaid room v (push_all t.outputs rest)
append-IsPaid room v t rest first second =
    omega (arith, tally-append 0 t.outputs rest.outputs, length-append t.outputs rest.outputs)

pub largest_units_lem :
    (i room v : ℕ)
    → i < 15
    → ((largest_units (unit_of i) room v ≡ err limit_exceeded) × (room < v))
      ⊎ ((t : Taken) × (largest_units (unit_of i) room v ≡ ok t)
          × IsPaid room v t
          × (t.value < value_at i))
unfolding largest_units
largest_units_lem i zero v h = elim (Bool-cases (leb (value_at i) v)) [
  | inl e ↦ inl (rw (e, largest_units), omega (arith, leb→le (value_at i) v e, value_at-pos i h))
  | inr e ↦ inr (_, rw (e, largest_units), stop-IsPaid zero v, not_leb→lt (value_at i) v e)
]
largest_units_lem i (suc room) v h = elim (Bool-cases (leb (value_at i) v)) [
  | inl e ↦ elim (largest_units_lem i room (v - value_at i) h) [
    | inl (full, more) ↦ inl (rw (e, largest_units) (rw full), omega (arith, value_at-pos i h))
    | inr (t, rest, paid, small) ↦ inr (
      push_all (unit_of i ∷ []) t,
      rw (e, largest_units) (rw rest),
      push-IsPaid i room v t h (leb→le (value_at i) v e) paid,
      small,
    )
  ]
  | inr e ↦ inr (_, rw (e, largest_units), stop-IsPaid (suc room) v, not_leb→lt (value_at i) v e)
]

abbrev bind_levels : ℕ → Taken → Result SelectionError Taken
bind_levels i t = largest_levels i t.room t.value >>= λ rest. ok (push_all t.outputs rest)

largest_levels_round :
    (i room v : ℕ)
    → i < 15
    → largest_levels (suc i) room v ≡ (largest_units (unit_of i) room v >>= bind_levels i)
unfolding largest_levels
largest_levels_round i room v h = rw (new_lem i h)

-- The smallest unit is one Qit, so nothing is left over.
pub largest_levels_lem :
    (n room v : ℕ)
    → n ≤ 15
    → ((largest_levels n room v ≡ err limit_exceeded) × (room < v))
      ⊎ ((t : Taken) × (largest_levels n room v ≡ ok t) × IsPaid room v t × (0 < n → t.value ≡ 0))
largest_levels_lem zero room v h = inr (
  record { outputs = []; room = room; value = v; capacity = [] },
  unfold largest_levels in refl,
  stop-IsPaid room v,
  λ p. elim p [ ],
)
largest_levels_lem (suc i) room v h =
    rw (largest_levels_round i room v h) (elim (largest_units_lem i room v h) [
      | inl (full, more) ↦ inl (rw full, more)
      | inr (t, e, paid, small) ↦ elim (largest_levels_lem i t.room t.value (omega arith)) [
        | inl (full, more) ↦ inl (rw e (rw full), more_than t paid more)
        | inr (rest, e', paid', done) ↦ inr (
          push_all t.outputs rest,
          rw e (rw e'),
          append-IsPaid room v t rest paid paid',
          λ _. all_paid i t rest small paid' done,
        )
      ]
    ])
  where
    more_than : (t : Taken) → IsPaid room v t → t.room < t.value → room < v
    more_than t paid more = omega arith

    all_paid :
        (i : ℕ) (t rest : Taken)
        → t.value < value_at i
        → IsPaid t.room t.value rest
        → (0 < i → rest.value ≡ 0)
        → rest.value ≡ 0
    all_paid zero t rest small paid' done = omega (arith, paid'.paid)
    all_paid (suc j) t rest small paid' done = done (omega arith)

-- Either the outputs pay the value exactly within the bound, or the bound is below the value.
pub denominate_largest_lem :
    (v max_outputs : ℕ)
    → ((outputs : List Denomination) × (denominate_largest v max_outputs ≡ ok outputs)
        × (tally 0 outputs ≡ v)
        × (length outputs ≤ max_outputs))
      ⊎ ((denominate_largest v max_outputs ≡ err limit_exceeded) × (max_outputs < v))
unfolding denominate_largest
denominate_largest_lem v max_outputs = elim (largest_levels_lem 15 max_outputs v (omega arith)) [
  | inl (full, more) ↦ inr (rw full, more)
  | inr (t, e, paid, done) ↦
      let zero_left : t.value ≡ 0 = done (omega arith) in
      inl (t.outputs, rw e (rw zero_left), omega (arith, paid.paid), omega (arith, paid.counted))
]

pub denominate_largest_ok :
    (v max_outputs : ℕ) {outputs : List Denomination}
    → denominate_largest v max_outputs ≡ ok outputs
    → (tally 0 outputs ≡ v) × (length outputs ≤ max_outputs)
denominate_largest_ok v max_outputs h = elim (denominate_largest_lem v max_outputs) [
  | inl (outputs', e, exact, within) ↦
      subst (λ ds. (tally 0 ds ≡ v) × (length ds ≤ max_outputs)) (ok-injective (sym e ∙ h))
        (exact, within)
  | inr (e, more) ↦ cc
]
