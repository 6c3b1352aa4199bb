-- ===== src/Wallet/Selection/Denominate/Take.antt =====
-- The two loops of `denominate_available` over units and over denominations.
use quai_rust_sdk.Prelude.{
  ℕ, zero, suc, ◌+◌, ◌-◌, ◌≤◌, ◌<◌, ◌≡◌, refl, ◌⊎◌, inl, inr, List, [], ◌∷◌, length, length-append,
  All, All-append, length-set, set, leb, leb→le, not_leb→lt, Bool-cases, ◌>>=◌, arith, none, some,
  ok, err, ◌∙◌, Result,
}
use native.Mathlib.Decide.{ℕ_discrete, dec_lt}
use quai_rust_sdk.Consensus.Denomination.{Denomination, IsDenomination, value_at, new_lem}
use quai_rust_sdk.Wallet.Selection.Types.{SelectionError, limit_exceeded}
use quai_rust_sdk.Wallet.Selection.Denominate.{
  at, decrement, Taken, push_all, source_for, split_down, take_units, take_levels,
}
use quai_rust_sdk.Wallet.Selection.Denominate.Worth.{
  weight, worth, worth-set, worth-zero, at-beyond, weight_self, at-set_self, at-set_ne, tally,
  tally-append, value_at-pos,
}
use quai_rust_sdk.Wallet.Selection.Denominate.Split.{
  IsInventory, IsFirst, IsSplit, mul_decrement, find_source_lem, split_down-IsSplit,
}

abbrev pub unit_of : ℕ → Denomination
unit_of i = record { index = i }

-- What a loop has paid, counted, and drawn from the inventory; from `i` down nothing is lost.
pub record IsTaken (i room v : ℕ) (capacity : List ℕ) (t : Taken) : Type 0 where
  pub inventory : IsInventory t.capacity
  pub paid : t.value + tally 0 t.outputs ≡ v
  pub counted : t.room + length t.outputs ≡ room
  pub worthy : length t.outputs ≤ tally 0 t.outputs
  pub valid : All IsDenomination t.outputs
  pub worth-le : (k : ℕ) → worth k t.capacity + tally k t.outputs ≤ worth k capacity
  pub worth-eq : (k : ℕ) → k ≤ i → worth k t.capacity + tally k t.outputs ≡ worth k capacity

-- Denomination `i` pays nothing more: the rest is smaller, or nothing is left from `i` on.
abbrev pub IsDone : ℕ → ℕ → List ℕ → Type 0
IsDone i v capacity = (v < value_at i) ⊎ (worth i capacity ≡ 0)

nothing_left :
    (i : ℕ) (c : List ℕ)
    → length c ≡ 15
    → i < 15
    → ((l : ℕ) → i ≤ l → l < i + (15 - i) → at c l ≡ 0)
    → worth i c ≡ 0
nothing_left i c size h empty = worth-zero i c (λ l p. elim (dec_lt l 15) [
  | yes inside ↦ empty l p (omega arith)
  | no outside ↦ at-beyond c l (omega arith)
])

pub source_for_lem :
    (i v : ℕ) (c : List ℕ)
    → IsInventory c
    → i < 15
    → ((source_for i (value_at i) v c ≡ none) × IsDone i v c)
      ⊎ ((s : ℕ) × (source_for i (value_at i) v c ≡ some s)
          × (value_at i ≤ v)
          × IsFirst c i s
          × (s < 15))
unfolding source_for
source_for_lem i v c inv h = elim (Bool-cases (leb (value_at i) v)) [
  | inl e ↦ elim (find_source_lem (15 - i) i c) [
    | inl (missing, empty) ↦ inl (rw e missing, inr (nothing_left i c inv.size h empty))
    | inr (s, found, first, below) ↦ inr (s, rw e found, leb→le _ _ e, first, omega arith)
  ]
  | inr e ↦ inl (rw e, inl (not_leb→lt _ _ e))
]

-- One unit less of `i`.
abbrev pub spent : ℕ → List ℕ → List ℕ
spent i c = set c i (decrement (at c i))

pub spent_worth :
    (i k : ℕ) (c : List ℕ)
    → IsInventory c
    → i < 15
    → 0 < at c i
    → worth k (spent i c) + weight k i ≡ worth k c
spent_worth i k c inv h here = omega (
  arith,
  worth-set k i (decrement (at c i)) c (rw inv.size h),
  mul_decrement (at c i) (weight k i) here (inv.bounded i),
)

pub spent-IsInventory : (i : ℕ) (c : List ℕ) → IsInventory c → i < 15 → IsInventory (spent i c)
spent-IsInventory i c inv h = record {
  size = length-set c i (decrement (at c i)) ∙ inv.size;
  bounded = λ j. elim (ℕ_discrete i j) [
    | yes same ↦
        rw (← same)
          (omega (arith, at-set_self c i (decrement (at c i)) (rw inv.size h), inv.bounded i))
    | no other ↦ omega (arith, at-set_ne c i j (decrement (at c i)) other, inv.bounded j)
  ];
}

module _ (i room v : ℕ) (c : List ℕ) (h : i < 15) where
  stop-IsTaken :
      IsInventory c
      → IsTaken i room v c (record { outputs = []; room = room; value = v; capacity = c })
  unfolding tally
  stop-IsTaken inv = record {
    inventory = inv;
    paid = omega arith;
    counted = omega arith;
    worthy = omega arith;
    valid = tt;
    worth-le = λ k. omega arith;
    worth-eq = λ k _. omega arith;
  }

  -- A split, a unit spent, and the rest of the loop.
  push-IsTaken :
      (c' : List ℕ) (rest : Taken)
      → value_at i ≤ v
      → IsSplit i c c'
      → IsTaken i room (v - value_at i) (spent i c') rest
      → IsTaken i (suc room) v c (push_all (unit_of i ∷ []) rest)
  unfolding tally
  push-IsTaken c' rest enough s r = record {
    inventory = r.inventory;
    paid = omega (arith, r.paid, weight_self 0 i (omega arith));
    counted = omega (arith, r.counted);
    valid = (h, r.valid);
    worthy = omega (arith, r.worthy, weight_self 0 i (omega arith), value_at-pos i h);
    worth-le =
        λ k. omega (arith, r.worth-le k, s.worth-le k, spent_worth i k c' s.inventory h s.positive);
    worth-eq = λ k p.
        omega (arith, r.worth-eq k p, s.worth-eq k p, spent_worth i k c' s.inventory h s.positive);
  }

-- One round of the loop.
pub take_units_round :
    (i room v s : ℕ) (c c' : List ℕ)
    → source_for i (value_at i) v c ≡ some s
    → split_down i (s - i) c ≡ ok c'
    → take_units i (unit_of i) (suc room) v c ≡ (
        take_units i (unit_of i) room (v - value_at i) (spent i c') >>= λ rest.
        ok (push_all (unit_of i ∷ []) rest))
unfolding take_units
take_units_round i room v s c c' e split = rw (e, take_units) (rw split)

-- The loop over one denomination runs out of room only with more to pay than outputs allowed.
pub take_units_lem :
    (i room v : ℕ) (c : List ℕ)
    → i < 15
    → IsInventory c
    → ((take_units i (unit_of i) room v c ≡ err limit_exceeded) × (room < v))
      ⊎ ((t : Taken) × (take_units i (unit_of i) room v c ≡ ok t)
          × IsTaken i room v c t
          × IsDone i t.value t.capacity)
unfolding take_units
take_units_lem i zero v c h inv = elim (source_for_lem i v c inv h) [
  | inl (e, done) ↦ inr (_, rw (e, take_units), stop-IsTaken i zero v c h inv, done)
  | inr (s, e, enough, first, below) ↦ inl (rw (e, take_units), omega (arith, value_at-pos i h))
]
take_units_lem i (suc room) v c h inv = elim (source_for_lem i v c inv h) [
  | inl (e, done) ↦ inr (_, rw (e, take_units), stop-IsTaken i (suc room) v c h inv, done)
  | inr (s, e, enough, first, below) ↦
      let (c', split, is_split) =
        split_down-IsSplit i (s - i) c inv (omega (arith, first.above)) (first_at s first) in
      rw (take_units_round i room v s c c' e split)
        (elim (take_units_lem i room (v - value_at i) (spent i c') h
          (spent-IsInventory i c' is_split.inventory h)) [
            | inl (full, more) ↦ inl (rw full, omega (arith, value_at-pos i h))
            | inr (t, rest, taken, done) ↦ inr (
              push_all (unit_of i ∷ []) t,
              rw rest,
              push-IsTaken i room v c h c' t enough is_split taken,
              done,
            )
          ])
]
  where
    add_sub : (i s : ℕ) → i ≤ s → i + (s - i) ≡ s
    add_sub i s p = omega arith

    first_at : (s : ℕ) → IsFirst c i s → IsFirst c i (i + (s - i))
    first_at s first = rw (add_sub i s first.above) first

-- The outputs of a loop down to denomination `lo`, from those of its first part and its rest.
append-IsTaken :
    (i j room v : ℕ) (c : List ℕ) (t rest : Taken)
    → j ≤ i
    → IsTaken i room v c t
    → IsTaken j t.room t.value t.capacity rest
    → IsTaken j room v c (push_all t.outputs rest)
append-IsTaken i j room v c t rest h first second = record {
  inventory = second.inventory;
  paid = omega (arith, first.paid, second.paid, tally-append 0 t.outputs rest.outputs);
  counted = omega (arith, first.counted, second.counted, length-append t.outputs rest.outputs);
  valid = All-append IsDenomination t.outputs rest.outputs first.valid second.valid;
  worthy = omega (
    arith,
    first.worthy,
    second.worthy,
    length-append t.outputs rest.outputs,
    tally-append 0 t.outputs rest.outputs,
  );
  worth-le = λ k.
      omega (arith, first.worth-le k, second.worth-le k, tally-append k t.outputs rest.outputs);
  worth-eq = λ k p. omega (
    arith,
    first.worth-eq k (omega arith),
    second.worth-eq k p,
    tally-append k t.outputs rest.outputs,
  );
}

abbrev pub bind_levels : ℕ → Taken → Result SelectionError Taken
bind_levels i t = take_levels i t.room t.value t.capacity >>= λ rest. ok (push_all t.outputs rest)

pub take_levels_round :
    (i room v : ℕ) (c : List ℕ)
    → i < 15
    → take_levels (suc i) room v c ≡ (take_units i (unit_of i) room v c >>= bind_levels i)
unfolding take_levels
take_levels_round i room v c h = rw (new_lem i h)

-- All levels: either room runs out, or all is paid, or the whole inventory is used up.
pub take_levels_lem :
    (n room v : ℕ) (c : List ℕ)
    → 0 < n
    → n ≤ 15
    → IsInventory c
    → ((take_levels n room v c ≡ err limit_exceeded) × (room < v))
      ⊎ ((t : Taken) × (take_levels n room v c ≡ ok t)
          × IsTaken 0 room v c t
          × IsDone 0 t.value t.capacity)
take_levels_lem zero room v c p h inv = elim p [ ]
take_levels_lem (suc zero) room v c p h inv =
    rw (take_levels_round 0 room v c h) (elim (take_units_lem 0 room v c h inv) [
      | inl (full, more) ↦ inl (rw full, more)
      | inr (t, e, taken, done) ↦ inr (
        push_all t.outputs (record t { outputs = [] }),
        rw e (last_level t),
        append-IsTaken 0 0 room v c t (record t { outputs = [] }) (omega arith) taken
            (stop-IsTaken 0 t.room t.value t.capacity h taken.inventory),
        done,
      )
    ])
  where
    last_level : (t : Taken) → bind_levels 0 t ≡ ok (push_all t.outputs (record t { outputs = [] }))
    last_level t = unfold take_levels in refl
take_levels_lem (suc (suc j)) room v c p h inv =
    rw (take_levels_round (suc j) room v c h) (elim (take_units_lem (suc j) room v c h inv) [
      | inl (full, more) ↦ inl (rw full, more)
      | inr (t, e, taken, done) ↦
          elim (take_levels_lem (suc j) t.room t.value t.capacity (omega arith) (omega arith)
            taken.inventory) [
              | inl (full, more) ↦ inl (rw e (rw full), more_than t taken more)
              | inr (rest, e', taken', done') ↦ inr (
                push_all t.outputs rest,
                rw e (rw e'),
                append-IsTaken (suc j) 0 room v c t rest (omega arith) taken taken',
                done',
              )
            ]
    ])
  where
    more_than : (t : Taken) → IsTaken (suc j) room v c t → t.room < t.value → room < v
    more_than t taken more = omega (arith, taken.paid, taken.counted, taken.worthy)
