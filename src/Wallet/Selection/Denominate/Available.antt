-- ===== src/Wallet/Selection/Denominate/Available.antt =====
-- What `denominate_available` answers, on every branch.
use quai_rust_sdk.Prelude.{
  ℕ, ◌+◌, ◌≤◌, ◌<◌, ◌≡◌, ◌⊎◌, inl, inr, ◌≢◌, List, length, All, arith, ok, err, ◌==◌, Bool-cases,
  subst, sym, ◌∙◌, ok-injective,
}
use quai_rust_sdk.Consensus.Denomination.{Denomination, IsDenomination}
use quai_rust_sdk.Wallet.Selection.Types.{limit_exceeded, insufficient_funds}
use quai_rust_sdk.Wallet.Selection.Denominate.{Taken, denominate_available}
use quai_rust_sdk.Wallet.Selection.Denominate.Worth.{worth, tally}
use quai_rust_sdk.Wallet.Selection.Denominate.Split.{IsInventory}
use quai_rust_sdk.Wallet.Selection.Denominate.Take.{IsTaken, IsDone, take_levels_lem}

-- `outputs` pay `v` exactly, in at most `max_outputs` pieces, out of the inventory `before`, and
-- never from smaller denominations: from every `k` on they are worth no more than what was there.
pub record IsPayment (v max_outputs : ℕ) (before : List ℕ) (outputs : List Denomination)
    (after : List ℕ) : Type 0 where
  pub exact : tally 0 outputs ≡ v
  pub within : length outputs ≤ max_outputs
  pub conserved : worth 0 after + v ≡ worth 0 before
  pub drawn : (k : ℕ) → worth k after + tally k outputs ≤ worth k before
  pub inventory : IsInventory after
  pub valid : All IsDenomination outputs

taken-IsPayment :
    (v max_outputs : ℕ) (c : List ℕ) (t : Taken)
    → IsTaken 0 max_outputs v c t
    → t.value ≡ 0
    → IsPayment v max_outputs c t.outputs t.capacity
taken-IsPayment v max_outputs c t taken e = record {
  exact = omega (arith, taken.paid);
  within = omega (arith, taken.counted);
  conserved = omega (arith, taken.paid, taken.worth-eq 0 (omega arith));
  drawn = taken.worth-le;
  inventory = taken.inventory;
  valid = taken.valid;
}

unfinished :
    (v max_outputs : ℕ) (c : List ℕ) (t : Taken)
    → IsTaken 0 max_outputs v c t
    → IsDone 0 t.value t.capacity
    → t.value ≢ 0
    → worth 0 c < v
unfinished v max_outputs c t taken (inl small) more = absurd (more (omega arith))
unfinished v max_outputs c t taken (inr empty) more =
    omega (arith, taken.paid, taken.worth-eq 0 (omega arith))

-- From an inventory of fifteen counts below 2 ^ 64, `denominate_available` answers in one of three
-- ways: a payment, the output limit where it is below the value, or insufficient funds where the
-- inventory is worth less than the value.
pub denominate_available_lem :
    (v : ℕ) (c : List ℕ) (max_outputs : ℕ)
    → IsInventory c
    → ((outputs : List Denomination) × (after : List ℕ) × (denominate_available v c max_outputs
          ≡ ok (outputs, after))
        × IsPayment v max_outputs c outputs after)
      ⊎ ((denominate_available v c max_outputs ≡ err limit_exceeded) × (max_outputs < v))
      ⊎ ((denominate_available v c max_outputs ≡ err insufficient_funds) × (worth 0 c < v))
unfolding denominate_available
denominate_available_lem v c max_outputs inv =
    elim (take_levels_lem 15 max_outputs v c (omega arith) (omega arith) inv) [
      | inl (full, more) ↦ inr (inl (rw full, more))
      | inr (t, e, taken, done) ↦ elim (Bool-cases (t.value == 0)) [
        | inl paid ↦ inl (
          t.outputs,
          t.capacity,
          rw e (rw paid),
          taken-IsPayment v max_outputs c t taken (ground arith),
        )
        | inr short ↦
            inr (inr (rw e (rw short), unfinished v max_outputs c t taken done (ground arith)))
      ]
    ]

-- A success is a payment.
pub denominate_available_ok :
    (v : ℕ) (c : List ℕ) (max_outputs : ℕ) {outputs : List Denomination} {after : List ℕ}
    → IsInventory c
    → denominate_available v c max_outputs ≡ ok (outputs, after)
    → IsPayment v max_outputs c outputs after
denominate_available_ok v c max_outputs {outputs} {after} inv h =
    elim (denominate_available_lem v c max_outputs inv) [
      | inl (outputs', after', e, payment) ↦
          subst (λ p. IsPayment v max_outputs c p.0 p.1) (ok-injective (sym e ∙ h)) payment
      | inr (inl (e, more)) ↦ cc
      | inr (inr (e, more)) ↦ cc
    ]
