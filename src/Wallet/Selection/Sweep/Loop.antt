-- ===== src/Wallet/Selection/Sweep/Loop.antt =====
-- The loop of a sweep takes every eligible coin, in order.
use quai_rust_sdk.Prelude.{
  ℕ, ◌+◌, ◌-◌, ◌≤◌, ◌<◌, ◌≡◌, refl, ap, subst, List, [], ◌∷◌, length, set, arith, ok, Bool-cases,
  inl, inr, true, false, if◌then◌else◌, ok-injective, reject_if-ok, ok_or-ok, >>=-eq-ok, ◌==◌,
}
use quai_rust_sdk.Consensus.Denomination.{value}
use quai_rust_sdk.Wallet.Selection.Types.{
  OutPoint, CandidateCoin, SelectionRequest, invalid_coin, limit_exceeded, overflow, checked_add,
  checked_add-some,
}
use quai_rust_sdk.Wallet.Selection.Denominate.{at, increment, count_into}
use quai_rust_sdk.Wallet.Selection.Bucket.{outpoint_eq, contains, is_bad_coin, is_eligible}
use quai_rust_sdk.Wallet.Selection.Bucket.Coins.{denominations, coins_value, spends}
use quai_rust_sdk.Wallet.Selection.Bucket.Keeps.{contains_same}
use quai_rust_sdk.Wallet.Selection.Aggregate.Ranges.{coins_value-cons, no_value}
use quai_rust_sdk.Wallet.Selection.Sweep.{Swept, sweep_loop}

-- The eligible coins, in the order of the snapshot.
unfoldable pub eligible : SelectionRequest → List CandidateCoin → List CandidateCoin
eligible request [] = []
eligible request (c ∷ cs) =
    if is_eligible request c then c ∷ eligible request cs else eligible request cs

pub record IsSwept (request : SelectionRequest) (cs : List CandidateCoin) (seen : List OutPoint)
    (room : ℕ) (capacity : List ℕ) (total : ℕ) (out : Swept) : Type 0 where
  pub inputs : out.inputs ≡ eligible request cs
  pub within : length out.inputs ≤ room
  pub sum : out.total ≡ total + coins_value out.inputs
  pub inventory : out.capacity ≡ count_into (denominations out.inputs) capacity
  pub once : (o : OutPoint) → spends o out.inputs ≤ (if contains seen o then 0 else 1)

-- What the loop returns where it stops, and with one coin more.
stop_lem :
    (request : SelectionRequest) (seen : List OutPoint) (room : ℕ) (capacity : List ℕ) (total : ℕ)
    → IsSwept request [] seen room capacity total
        (record { inputs = []; capacity = capacity; total = total })
unfolding eligible count_into spends
stop_lem request seen room capacity total = record {
  inputs = refl;
  within = omega arith;
  sum = omega (arith, no_value);
  inventory = refl;
  once = λ o. omega arith;
}

skip_lem :
    (request : SelectionRequest) (c : CandidateCoin) (cs : List CandidateCoin)
    (seen : List OutPoint) (room : ℕ) (capacity : List ℕ) (total : ℕ) (out : Swept)
    → is_eligible request c ≡ false
    → IsSwept request cs (c.outpoint ∷ seen) room capacity total out
    → IsSwept request (c ∷ cs) seen room capacity total out
unfolding eligible contains
skip_lem request c cs seen room capacity total out e s = record {
  inputs = rw e s.inputs;
  within = s.within;
  sum = s.sum;
  inventory = s.inventory;
  once = λ o. ground (arith, s.once o);
}

take_lem :
    (request : SelectionRequest) (c : CandidateCoin) (cs : List CandidateCoin)
    (seen : List OutPoint) (room : ℕ) (capacity : List ℕ) (total total' : ℕ) (out : Swept)
    → is_eligible request c ≡ true
    → contains seen c.outpoint ≡ false
    → 0 < room
    → total' ≡ total + value c.denomination
    → IsSwept request cs
        (c.outpoint ∷ seen)
        (room - 1)
        (set capacity c.denomination.index (increment (at capacity c.denomination.index)))
        total'
        out
    → IsSwept request (c ∷ cs) seen room capacity total (record out { inputs = c ∷ out.inputs })
unfolding eligible contains count_into spends
take_lem request c cs seen room capacity total total' out e fresh some sum s = record {
  inputs = rw e (ap (λ rest. c ∷ rest) s.inputs);
  within = omega (arith, s.within);
  sum = omega (arith, s.sum, coins_value-cons c out.inputs);
  inventory = s.inventory;
  once = λ o. elim (Bool-cases (outpoint_eq c.outpoint o)) [
    | inl same ↦ ground (arith, s.once o, contains_same seen c.outpoint o same)
    | inr other ↦ ground (arith, s.once o)
  ];
}

pub sweep_loop_lem :
    (request : SelectionRequest) (cs : List CandidateCoin) (seen : List OutPoint) (room : ℕ)
    (capacity : List ℕ) (total : ℕ) {out : Swept}
    → sweep_loop request cs seen room capacity total ≡ ok out
    → IsSwept request cs seen room capacity total out
unfolding sweep_loop
sweep_loop_lem request [] seen room capacity total {out} h =
    subst (IsSwept request [] seen room capacity total) (ok-injective h)
      (stop_lem request seen room capacity total)
sweep_loop_lem request (c ∷ cs) seen room capacity total {out} h =
    let (good, h₁) = reject_if-ok (is_bad_coin seen c) invalid_coin _ h in
    elim (Bool-cases (is_eligible request c)) [
      | inl e ↦
          let (some, h₂) = reject_if-ok (room == 0) limit_exceeded _ (rw (e, sweep_loop) at h₁) in
          let (total', adding, h₃) =
            ok_or-ok (checked_add 256 total (value c.denomination)) overflow _ h₂ in
          let (rest, later, h₄) =
            >>=-eq-ok
              (sweep_loop request cs (c.outpoint ∷ seen) (room - 1)
                (set capacity c.denomination.index (increment (at capacity c.denomination.index)))
                total')
              _ h₃ in
          subst (IsSwept request (c ∷ cs) seen room capacity total) (ok-injective h₄) (
            take_lem request c cs seen room capacity total total' rest e (fresh good) (ground arith)
              (checked_add-some 256 total (value c.denomination) adding).0
              (sweep_loop_lem request cs (c.outpoint ∷ seen) (room - 1) _ total' {out = rest}
                later))
      | inr e ↦ skip_lem request c cs seen room capacity total out e (
          sweep_loop_lem request cs (c.outpoint ∷ seen) room capacity total {out = out}
            (rw (e, sweep_loop) at h₁))
    ]
  where
    fresh : is_bad_coin seen c ≡ false → contains seen c.outpoint ≡ false
    fresh good = unfold is_bad_coin in ground arith
