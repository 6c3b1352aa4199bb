-- ===== src/Wallet/Selection/Denominate/Split.antt =====
-- The search for a source denomination and the splitting loop of `denominate_available`.
use quai_rust_sdk.Prelude.{
  ℕ, zero, suc, ◌+◌, ◌-◌, ◌*◌, ◌/◌, ◌^◌, ◌≤◌, ◌<◌, ◌≡◌, refl, ok_or, false, ◌⊎◌, inl, inr, List,
  length, set, length-set, ltb, Bool-cases, arith, none, some, ok, ◌∙◌,
}
use native.Mathlib.Decide.{dec_lt, ℕ_discrete}
use quai_rust_sdk.Consensus.Denomination.{value_at, new_lem}
use quai_rust_sdk.Wallet.Selection.Types.{overflow, checked_add}
use quai_rust_sdk.Wallet.Selection.Denominate.{at, decrement, find_source, split_down}
use quai_rust_sdk.Wallet.Selection.Denominate.Worth.{
  weight, worth, worth-set, at-set_self, at-set_ne, ratio, ratio_lem,
}

-- Fifteen u64 counts.
-- What the search finds is not empty, and all before it are.
pub record IsFirst (capacity : List ℕ) (i j : ℕ) : Type 0 where
  pub above : i ≤ j
  pub here : 0 < at capacity j
  pub empty : (l : ℕ) → i ≤ l → l < j → at capacity l ≡ 0

pub record IsInventory (capacity : List ℕ) : Type 0 where
  pub size : length capacity ≡ 15
  pub bounded : (j : ℕ) → at capacity j < 2 ^ 64

-- `after` is `before` with larger units split until there is one of denomination `i`.
pub record IsSplit (i : ℕ) (before after : List ℕ) : Type 0 where
  pub inventory : IsInventory after
  pub positive : 0 < at after i
  pub worth-le : (k : ℕ) → worth k after ≤ worth k before
  pub worth-eq : (k : ℕ) → k ≤ i → worth k after ≡ worth k before

decrement_lem : (x : ℕ) → 0 < x → x < 2 ^ 64 → decrement x ≡ x - 1
decrement_lem x h b = omega arith

pub mul_decrement : (x w : ℕ) → 0 < x → x < 2 ^ 64 → decrement x * w + w ≡ x * w
mul_decrement x w h b = rw (decrement_lem x h b) (go x h)
  where
    go : (x : ℕ) → 0 < x → (x - 1) * w + w ≡ x * w
    go zero h = elim h [ ]
    go (suc y) h = rw (suc_sub_one y) (omega arith)
      where
        suc_sub_one : (y : ℕ) → suc y - 1 ≡ y
        suc_sub_one y = omega arith

weight_kept : (k j : ℕ) → k ≤ j → j < 14 → ratio j * weight k j ≡ weight k (suc j)
unfolding weight
weight_kept k j h b = ground (arith, ratio_lem j)

weight-le : (k j : ℕ) → j < 14 → ratio j * weight k j ≤ weight k (suc j)
unfolding weight
weight-le k j b = ground (arith, ratio_lem j)

-- One unit of `suc m` becomes `ratio m` units of `m`.
abbrev broken : ℕ → List ℕ → List ℕ
broken m c = set (set c (suc m) (decrement (at c (suc m)))) m (0 + ratio m)

module _ (m : ℕ) (c : List ℕ) (inv : IsInventory c) (small : m < 14) (here : 0 < at c (suc m))
    (empty : at c m ≡ 0) where
  lowered_at : at (set c (suc m) (decrement (at c (suc m)))) m ≡ 0
  lowered_at = at-set_ne c (suc m) m _ (omega arith) ∙ empty

  broken_size : length (broken m c) ≡ 15
  broken_size = length-set (set c (suc m) _) m _ ∙ length-set c (suc m) _ ∙ inv.size

  worth-broken :
      (k : ℕ) → worth k (broken m c) + weight k (suc m) ≡ worth k c + ratio m * weight k m
  worth-broken k = omega (
    arith,
    worth-set k (suc m) (decrement (at c (suc m))) c (rw inv.size (omega arith)),
    rw lowered_at at (worth-set k m (0 + ratio m) (set c (suc m) (decrement (at c (suc m)))) fits),
    mul_decrement (at c (suc m)) (weight k (suc m)) here (inv.bounded (suc m)),
  )
    where
      fits : m < length (set c (suc m) (decrement (at c (suc m))))
      fits = rw (length-set c (suc m) (decrement (at c (suc m))), inv.size) (omega arith)

  at-broken : at (broken m c) m ≡ ratio m
  at-broken =
      at-set_self (set c (suc m) (decrement (at c (suc m)))) m (0 + ratio m)
        (rw (length-set c (suc m) (decrement (at c (suc m))), inv.size) (omega arith))
      ∙ (omega arith)

  broken_below : (j : ℕ) → j < m → at (broken m c) j ≡ at c j
  broken_below j h =
      at-set_ne (set c (suc m) (decrement (at c (suc m)))) m j (0 + ratio m) (omega arith)
      ∙ at-set_ne c (suc m) j (decrement (at c (suc m))) (omega arith)

  broken_above : (j : ℕ) → suc m < j → at (broken m c) j ≡ at c j
  broken_above j h =
      at-set_ne (set c (suc m) (decrement (at c (suc m)))) m j (0 + ratio m) (omega arith)
      ∙ at-set_ne c (suc m) j (decrement (at c (suc m))) (omega arith)

  broken_next : at (broken m c) (suc m) ≡ decrement (at c (suc m))
  broken_next =
      at-set_ne (set c (suc m) (decrement (at c (suc m)))) m (suc m) (0 + ratio m) (omega arith)
      ∙ at-set_self c (suc m) (decrement (at c (suc m))) (rw inv.size (omega arith))

  broken_bounded : (j : ℕ) → at (broken m c) j < 2 ^ 64
  broken_bounded j = elim (dec_lt j m) [
    | yes below ↦ omega (arith, broken_below j below, inv.bounded j)
    | no above ↦ elim (dec_lt (suc m) j) [
      | yes far ↦ omega (arith, broken_above j far, inv.bounded j)
      | no near ↦ elim (ℕ_discrete j m) [
        | yes e ↦ rw e (omega (arith, at-broken, ratio_lem m small))
        | no n ↦ rw (at_next j (omega arith)) (omega (arith, broken_next))
      ]
    ]
  ]
    where
      at_next : (j : ℕ) → j ≡ suc m → at (broken m c) j ≡ at (broken m c) (suc m)
      at_next j e = rw e

  broken-IsInventory : IsInventory (broken m c)
  broken-IsInventory = record { size = broken_size; bounded = broken_bounded }

-- One round: the loop continues on the broken inventory.
split_down_round :
    (i n : ℕ) (c : List ℕ)
    → IsInventory c
    → i + n < 14
    → 0 < at c (suc (i + n))
    → at c (i + n) ≡ 0
    → split_down i (suc n) c ≡ split_down i n (broken (i + n) c)
unfolding split_down ratio
split_down_round i n c inv h here empty =
    rw (new_lem (suc (i + n)) (omega arith), new_lem (i + n) (omega arith), raise)
  where
    fits : (r : ℕ) → r < 11 → ok_or (checked_add 64 0 r) overflow ≡ ok (0 + r)
    fits r k = ground arith

    raise :
        ok_or
          (checked_add 64
            (at (set c (suc (i + n)) (decrement (at c (suc (i + n))))) (i + n))
            (value_at (suc (i + n)) / value_at (i + n)))
          overflow
        ≡ ok (0 + ratio (i + n))
    raise =
        rw (lowered_at (i + n) c inv h here empty) (fits (ratio (i + n)) (ratio_lem (i + n) h).2)

add_suc : (i n : ℕ) → i + suc n ≡ suc (i + n)
add_suc i n = omega arith

-- A split of the broken inventory is a split of the inventory.
IsSplit-broken :
    (i m : ℕ) (c : List ℕ)
    → IsInventory c
    → i ≤ m
    → m < 14
    → 0 < at c (suc m)
    → at c m ≡ 0
    → (c' : List ℕ) → IsSplit i (broken m c) c'
    → IsSplit i c c'
IsSplit-broken i m c inv h small here empty c' s = record {
  inventory = s.inventory;
  positive = s.positive;
  worth-le = λ k.
      omega (arith, s.worth-le k, worth-broken m c inv small here empty k, weight-le k m small);
  worth-eq = λ k p. omega (
    arith,
    s.worth-eq k p,
    worth-broken m c inv small here empty k,
    weight_kept k m (omega arith) small,
  );
}

-- The splitting loop cannot fail, and moves no value below `i`.
pub split_down-IsSplit :
    (i n : ℕ) (c : List ℕ)
    → IsInventory c
    → i + n < 15
    → IsFirst c i (i + n)
    → (c' : List ℕ) × (split_down i n c ≡ ok c') × IsSplit i c c'
unfolding split_down
split_down-IsSplit i zero c inv h first = (
  c,
  refl,
  record {
    inventory = inv;
    positive = rw (add_zero i) at first.here;
    worth-le = λ k. omega arith;
    worth-eq = λ k _. refl;
  },
)
  where
    add_zero : (i : ℕ) → i + 0 ≡ i
    add_zero i = omega arith
split_down-IsSplit i (suc n) c inv h first =
    let empty : at c (i + n) ≡ 0 = first.empty (i + n) (omega arith) (omega arith) in
    let here : 0 < at c (suc (i + n)) = rw (add_suc i n) at first.here in
    let next : List ℕ = broken (i + n) c in
    let inv' : IsInventory next = broken-IsInventory (i + n) c inv (omega arith) here empty in
    let (c', e, s) = split_down-IsSplit i n next inv' (omega arith) (first_next empty here) in
    (
      c',
      split_down_round i n c inv (omega arith) here empty ∙ e,
      IsSplit-broken i (i + n) c inv (omega arith) (omega arith) here empty c' s,
    )
  where
    first_next : at c (i + n) ≡ 0 → 0 < at c (suc (i + n)) → IsFirst (broken (i + n) c) i (i + n)
    first_next empty here = record {
      above = omega arith;
      here =
          rw (at-broken (i + n) c inv (omega arith) here empty) (ratio_lem (i + n) (omega arith)).1;
      empty = λ l p q.
          broken_below (i + n) c inv (omega arith) here empty l q ∙ first.empty l p (omega arith);
    }

empty_from :
    (b j : ℕ) (c : List ℕ)
    → ltb 0 (at c j) ≡ false
    → ((l : ℕ) → suc j ≤ l → l < b → at c l ≡ 0)
    → (l : ℕ) → j ≤ l
    → l < b
    → at c l ≡ 0
empty_from b j c e empty l h k = elim (ℕ_discrete l j) [
  | yes same ↦ rw same (ground arith)
  | no other ↦ empty l (omega arith) k
]

-- The search finds the first denomination that is there, or there is none.
pub find_source_lem :
    (n j : ℕ) (c : List ℕ)
    → ((find_source n j c ≡ none) × ((l : ℕ) → j ≤ l → l < j + n → at c l ≡ 0))
      ⊎ ((s : ℕ) × (find_source n j c ≡ some s) × IsFirst c j s × (s < j + n))
unfolding find_source
find_source_lem zero j c = inl (refl, λ l h k. absurd (omega arith))
find_source_lem (suc n) j c = elim (Bool-cases (ltb 0 (at c j))) [
  | inl e ↦ inr (
    j,
    rw e,
    record { above = omega arith; here = ground arith; empty = λ l h k. absurd (omega arith) },
    omega arith,
  )
  | inr e ↦ elim (find_source_lem n (suc j) c) [
    | inl (missing, empty) ↦
        inl (rw e missing, empty_from (j + suc n) j c e (λ l h k. empty l h (omega arith)))
    | inr (s, found, first, below) ↦ inr (
      s,
      rw e found,
      record { above = omega arith; here = first.here; empty = empty_from s j c e first.empty },
      omega arith,
    )
  ]
]
