-- ===== src/Wallet/Selection/Denominate.antt =====
-- The three decompositions of a value into denominations: `denominate_largest`,
-- `denominate_available` and its check `preserves_denominations` (selection.rs).
-- The inventory `[u64; 15]` is a list of fifteen numbers. `room` is `max_outputs - result.len()`,
-- so an exhausted room is the test `result.len() == max_outputs`, and every loop ends.
pub mod Worth
pub mod Split
pub mod Take
pub mod Available
pub mod Inventory
pub mod Draw
pub mod Preserves
pub mod Largest
use quai_rust_sdk.Prelude.{
  ℕ, zero, suc, ◌+◌, ◌-◌, ◌/◌, ◌%◌, ◌^◌, List, [], ◌∷◌, ◌++◌, Option, none, some, not, ◌||◌, Bool,
  true, false, length, replicate, ltb, leb, ◌==◌, if◌then◌else◌, get_or, set, Result, ok, err,
  ◌>>=◌, ◌>>◌, reject_if, ok_or,
}
use quai_rust_sdk.Consensus.Denomination.{Denomination, new, value}
use quai_rust_sdk.Wallet.Selection.Types.{
  SelectionError, invalid_request, overflow, insufficient_funds, limit_exceeded, or_invalid_coin,
  checked_add,
}

-- `x += 1` and `x -= 1` on a u64, with the wrap of a release build.
abbrev pub increment : ℕ → ℕ
increment x = (x + 1) % 2 ^ 64

abbrev pub decrement : ℕ → ℕ
decrement x = (x + 2 ^ 64 - 1) % 2 ^ 64

abbrev pub at : List ℕ → ℕ → ℕ
at capacity j = get_or capacity j 0

-- The state of a decomposition: what is still to be paid, from which inventory, and in how many
-- outputs, beside the outputs made so far.
pub record Taken : Type 0 where
  pub outputs : List Denomination
  pub room : ℕ
  pub value : ℕ
  pub capacity : List ℕ

abbrev pub push_all : List Denomination → Taken → Taken
push_all outputs t = record t { outputs = outputs ++ t.outputs }

-- `(j..j + n).find(|&j| capacity[j] > 0)`
unfoldable pub find_source : ℕ → ℕ → List ℕ → Option ℕ
find_source zero j capacity = none
find_source (suc n) j capacity =
    if ltb 0 (at capacity j) then some j else find_source n (suc j) capacity

-- The loop condition with the `let … else { break }` behind it.
unfoldable pub source_for : ℕ → ℕ → ℕ → List ℕ → Option ℕ
unfolding find_source
source_for i unit value capacity = if leb unit value then find_source (15 - i) i capacity else none

-- `for j in (i + 1..=i + n).rev()`: one unit of each denomination is split into the next smaller.
unfoldable pub split_down : ℕ → ℕ → List ℕ → Result SelectionError (List ℕ)
split_down i zero capacity = ok capacity
split_down i (suc n) capacity = do
  let lowered = set capacity (suc (i + n)) (decrement (at capacity (suc (i + n))))
  larger ← or_invalid_coin (new (suc (i + n)))
  smaller ← or_invalid_coin (new (i + n))
  raised ← ok_or (checked_add 64 (at lowered (i + n)) (value larger / value smaller)) overflow
  split_down i n (set lowered (i + n) raised)

-- The inner `while` at denomination `i`.
unfoldable pub take_units : ℕ → Denomination → ℕ → ℕ → List ℕ → Result SelectionError Taken
take_units i d zero v capacity = elim (source_for i (value d) v capacity) [
  | none ↦ ok (record { outputs = []; room = 0; value = v; capacity = capacity })
  | some source ↦ err limit_exceeded
]
take_units i d (suc room) v capacity = elim (source_for i (value d) v capacity) [
  | none ↦ ok (record { outputs = []; room = suc room; value = v; capacity = capacity })
  | some source ↦ do
    split ← split_down i (source - i) capacity
    rest ← take_units i d room (v - value d) (set split i (decrement (at split i)))
    ok (push_all (d ∷ []) rest)
]

-- `for i in (0..n).rev()`
unfoldable pub take_levels : ℕ → ℕ → ℕ → List ℕ → Result SelectionError Taken
take_levels zero room v capacity =
    ok (record { outputs = []; room = room; value = v; capacity = capacity })
take_levels (suc i) room v capacity = do
  d ← or_invalid_coin (new i)
  t ← take_units i d room v capacity
  rest ← take_levels i t.room t.value t.capacity
  ok (push_all t.outputs rest)

-- The outputs, and the inventory that the `&mut` argument is left with.
unfoldable pub denominate_available :
    ℕ → List ℕ → ℕ → Result SelectionError (List Denomination × List ℕ)
denominate_available v capacity max_outputs = do
  t ← take_levels 15 max_outputs v capacity
  reject_if (not (t.value == 0)) insufficient_funds
  ok (t.outputs, t.capacity)

-- `denominate_largest`: the same loops with no inventory.
unfoldable pub largest_units : Denomination → ℕ → ℕ → Result SelectionError Taken
largest_units d zero v = elim (leb (value d) v) [
  | true ↦ err limit_exceeded
  | false ↦ ok (record { outputs = []; room = 0; value = v; capacity = [] })
]
largest_units d (suc room) v = elim (leb (value d) v) [
  | true ↦ do rest ← largest_units d room (v - value d); ok (push_all (d ∷ []) rest)
  | false ↦ ok (record { outputs = []; room = suc room; value = v; capacity = [] })
]

unfoldable pub largest_levels : ℕ → ℕ → ℕ → Result SelectionError Taken
unfolding largest_units
largest_levels zero room v = ok (record { outputs = []; room = room; value = v; capacity = [] })
largest_levels (suc i) room v = do
  d ← or_invalid_coin (new i)
  t ← largest_units d room v
  rest ← largest_levels i t.room t.value
  ok (push_all t.outputs rest)

unfoldable pub denominate_largest : ℕ → ℕ → Result SelectionError (List Denomination)
unfolding largest_levels
denominate_largest v max_outputs = do
  t ← largest_levels 15 max_outputs v
  reject_if (not (t.value == 0)) insufficient_funds
  ok t.outputs

-- `capacity[d.index()] += 1` for each of the list.
unfoldable pub count_into : List Denomination → List ℕ → List ℕ
count_into [] capacity = capacity
count_into (d ∷ ds) capacity =
    count_into ds (set capacity d.index (increment (at capacity d.index)))

abbrev pub no_capacity : List ℕ
no_capacity = replicate 15 0

-- `sort_unstable_by_key(|d| Reverse(d.index()))`: equal keys are equal denominations.
unfoldable pub insert_descending : Denomination → List Denomination → List Denomination
insert_descending d [] = d ∷ []
insert_descending d (e ∷ es) =
    if leb e.index d.index then d ∷ e ∷ es else e ∷ insert_descending d es

unfoldable pub sort_descending : List Denomination → List Denomination
unfolding insert_descending
sort_descending [] = []
sort_descending (d ∷ ds) = insert_descending d (sort_descending ds)

-- `outputs != [output]`
abbrev pub is_single : Denomination → List Denomination → Bool
is_single d [] = false
is_single d (e ∷ []) = e.index == d.index
is_single d (e ∷ f ∷ fs) = false

unfoldable pub draw_each : List Denomination → List ℕ → Result SelectionError (Unit {0})
draw_each [] capacity = ok tt
draw_each (o ∷ os) capacity = do
  (outputs, after) ← denominate_available (value o) capacity 1
  reject_if (not (is_single o outputs)) invalid_request
  draw_each os after

abbrev pub is_empty {ℓ} : {A : Type ℓ} → List A → Bool
is_empty [] = true
is_empty (x ∷ xs) = false

unfoldable pub preserves_denominations :
    List Denomination → List Denomination → Result SelectionError (Unit {0})
unfolding count_into sort_descending
preserves_denominations inputs outputs = do
  reject_if (is_empty inputs || (ltb 4096 (length inputs) || ltb 4096 (length outputs)))
      invalid_request
  draw_each (sort_descending outputs) (count_into inputs no_capacity)
