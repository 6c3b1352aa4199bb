-- ===== src/Wallet/Selection/Choose/Pick.antt =====
-- What the choice of inputs returns: a covering coin, or the largest coins until they cover.
use quai_rust_sdk.Prelude.{
  ℕ, ◌+◌, ◌-◌, ◌≤◌, ◌<◌, ◌≡◌, refl, ap, subst, ◌⊎◌, inl, inr, List, [], ◌∷◌, ◌++◌, reverse, flatten,
  length, All, All-split, arith, ok, some, none, some_injective, Option, false, leb, ◌==◌, leb→le,
  Bool-cases, ok-injective, >>=-eq-ok, reject_if-ok, ok_or-ok,
}
use quai_rust_sdk.Consensus.Denomination.{value}
use quai_rust_sdk.Wallet.Selection.Types.{
  OutPoint, CandidateCoin, SelectionRequest, limit_exceeded, overflow, checked_add,
  checked_add-some,
}
use quai_rust_sdk.Wallet.Selection.Denominate.Worth.{tally, weight_self}
use quai_rust_sdk.Wallet.Selection.Bucket.{Buckets}
use quai_rust_sdk.Wallet.Selection.Bucket.Coins.{
  coins_value, spends, spends-append, spends-reverse, coins_value-append, coins_value-reverse,
  All-reverse,
}
use quai_rust_sdk.Wallet.Selection.Choose.{find_covering, descending, greedy, pick_from, pick}

-- The greedy loop takes a prefix, and stops when it covers or when nothing is left.
pub record IsPrefix (required room total : ℕ) (coins chosen : List CandidateCoin) (final : ℕ)
    : Type 0 where
  pub rest : List CandidateCoin
  pub split : coins ≡ chosen ++ rest
  pub sum : final ≡ total + coins_value chosen
  pub within : length chosen ≤ room
  pub covers : (required ≤ final) ⊎ (rest ≡ [])

stop-IsPrefix :
    (required room total : ℕ) (coins : List CandidateCoin)
    → (required ≤ total) ⊎ (coins ≡ [])
    → IsPrefix required room total coins [] total
unfolding tally
stop-IsPrefix required room total coins done = record {
  rest = coins;
  split = refl;
  sum = omega arith;
  within = omega arith;
  covers = done;
}

push-IsPrefix :
    (required room total final : ℕ) (coin : CandidateCoin) (coins chosen : List CandidateCoin)
    → 0 < room
    → IsPrefix required (room - 1) (total + value coin.denomination) coins chosen final
    → IsPrefix required room total (coin ∷ coins) (coin ∷ chosen) final
unfolding tally
push-IsPrefix required room total final coin coins chosen h r = record {
  rest = r.rest;
  split = ap (λ (cs : List CandidateCoin). coin ∷ cs) r.split;
  sum = omega (arith, r.sum, weight_self 0 coin.denomination.index (omega arith));
  within = omega (arith, r.within);
  covers = r.covers;
}

-- One round that does not stop.
greedy_round :
    (required room total : ℕ) (coin : CandidateCoin) (coins : List CandidateCoin)
    {p : List CandidateCoin × ℕ}
    → leb required total ≡ false
    → greedy required room total (coin ∷ coins) ≡ ok p
    → (q : List CandidateCoin × ℕ) × (0 < room)
      × (greedy required (room - 1) (total + value coin.denomination) coins ≡ ok q)
      × ((coin ∷ q.0, q.1) ≡ p)
unfolding greedy
greedy_round required room total coin coins e h =
    let (some_room, h₁) = reject_if-ok (room == 0) limit_exceeded _ (rw (e, greedy) at h) in
    let (total', sum, h₂) =
      ok_or-ok (checked_add 256 total (value coin.denomination)) overflow _ h₁ in
    let (exact, _) = checked_add-some 256 total (value coin.denomination) sum in
    let (q, h₃, h₄) = >>=-eq-ok (greedy required (room - 1) total' coins) _ h₂ in
    (
      q,
      ground arith,
      subst (λ t. greedy required (room - 1) t coins ≡ ok q) exact h₃,
      ok-injective h₄,
    )

greedy_lem :
    (required room total : ℕ) (coins : List CandidateCoin) {p : List CandidateCoin × ℕ}
    → greedy required room total coins ≡ ok p
    → IsPrefix required room total coins p.0 p.1
unfolding greedy
greedy_lem required room total [] {p} h =
    subst (λ p. IsPrefix required room total [] p.0 p.1) {x = ([], total)} {y = p} (ok-injective h)
      (stop-IsPrefix required room total [] (inr refl))
greedy_lem required room total (coin ∷ coins) {p} h = elim (Bool-cases (leb required total)) [
  | inl e ↦
      subst (λ p. IsPrefix required room total (coin ∷ coins) p.0 p.1) {x = ([], total)} {y = p}
        (ok-injective (rw (e, greedy) at h))
        (stop-IsPrefix required room total (coin ∷ coins) (inl (leb→le required total e)))
  | inr e ↦
      let (q, some_room, rest, same) = greedy_round required room total coin coins {p = p} e h in
      subst (λ p. IsPrefix required room total (coin ∷ coins) p.0 p.1) {x = (coin ∷ q.0, q.1)}
        {y = p} same
        (push-IsPrefix required room total q.1 coin coins q.0 some_room
          (greedy_lem required (room - 1) (total + value coin.denomination) coins {p = q} rest))
]

find_covering_lem :
    (required : ℕ) (coins : List CandidateCoin) {coin : CandidateCoin}
    → find_covering required coins ≡ some coin
    → (before : List CandidateCoin) × (after : List CandidateCoin) × (coins
        ≡ before ++ (coin ∷ after))
      × (required ≤ value coin.denomination)
unfolding find_covering
find_covering_lem required [] h = cc
find_covering_lem required (c ∷ coins) {coin} h =
    elim (Bool-cases (leb required (value c.denomination))) [
      | inl e ↦
          let same : c ≡ coin = some_injective (rw e at h) in
          (
            [],
            coins,
            ap (λ (x : CandidateCoin). x ∷ coins) same,
            subst (λ x. required ≤ value x.denomination) same
                (leb→le required (value c.denomination) e),
          )
      | inr e ↦
          let (before, after, split, covers) = find_covering_lem required coins (rw e at h) in
          (c ∷ before, after, ap (λ (xs : List CandidateCoin). c ∷ xs) split, covers)
    ]

-- One covering coin of the snapshot, or a prefix of the coins in falling order.
abbrev pub Picked : Buckets → SelectionRequest → ℕ → List CandidateCoin × ℕ → Type 0
Picked buckets request required p =
    ((coin : CandidateCoin) × (before : List CandidateCoin) × (after : List CandidateCoin)
      × (flatten buckets ≡ before ++ (coin ∷ after))
      × (required ≤ value coin.denomination)
      × ((coin ∷ [], value coin.denomination) ≡ p))
    ⊎ IsPrefix required request.max_inputs 0 (descending buckets) p.0 p.1

pub pick_lem :
    (buckets : Buckets) (request : SelectionRequest) (required : ℕ) {p : List CandidateCoin × ℕ}
    → pick buckets request required ≡ ok p
    → Picked buckets request required p
unfolding pick pick_from
pick_lem buckets request required {p} h = go (find_covering required (flatten buckets)) refl h
  where
    go :
        (o : Option CandidateCoin)
        → find_covering required (flatten buckets) ≡ o
        → pick_from buckets request required o ≡ ok p
        → Picked buckets request required p
    go none e r = inr (greedy_lem required request.max_inputs 0 (descending buckets) {p = p} r)
    go (some coin) e r =
        let (before, after, split, covers) = find_covering_lem required (flatten buckets) e in
        inl (coin, before, after, split, covers, ok-injective r)

from_descending :
    (buckets : Buckets) {xs : List CandidateCoin}
    → descending buckets ≡ xs
    → reverse (flatten buckets) ≡ xs
unfolding descending
from_descending buckets e = e

no_value : coins_value [] ≡ 0
unfolding tally
no_value = refl

module _ (buckets : Buckets) (request : SelectionRequest) (required : ℕ)
    {p : List CandidateCoin × ℕ} (picked : Picked buckets request required p) where
  pub picked_sum : p.1 ≡ coins_value p.0
  picked_sum = elim picked [
    | inl (coin, before, after, split, covers, same) ↦
        subst (λ q. q.1 ≡ coins_value q.0) same (single coin)
    | inr prefix ↦ omega (arith, prefix.sum)
  ]
    where
      single : (coin : CandidateCoin) → value coin.denomination ≡ coins_value (coin ∷ [])
      single coin =
          unfold tally in omega (arith, weight_self 0 coin.denomination.index (omega arith))

  pub picked_within : 1 ≤ request.max_inputs → length p.0 ≤ request.max_inputs
  picked_within h = elim picked [
    | inl (coin, before, after, split, covers, same) ↦
        subst (λ q. length q.0 ≤ request.max_inputs) same h
    | inr prefix ↦ prefix.within
  ]

  pub picked-spends : (o : OutPoint) → spends o p.0 ≤ spends o (flatten buckets)
  picked-spends o = elim picked [
    | inl (coin, before, after, split, covers, same) ↦
        subst (λ q. spends o q.0 ≤ spends o (flatten buckets)) same
          (rw split (single coin before after))
    | inr prefix ↦ omega (
      arith,
      spends-reverse o (flatten buckets),
      ap (spends o) (from_descending buckets prefix.split),
      spends-append o p.0 prefix.rest,
    )
  ]
    where
      single :
          (coin : CandidateCoin) (before after : List CandidateCoin)
          → spends o (coin ∷ []) ≤ spends o (before ++ (coin ∷ after))
      single coin before after =
          unfold spends in omega (arith, spends-append o before (coin ∷ after))

  -- Short of what is required, everything was taken.
  pub picked_short : p.1 < required → p.1 ≡ coins_value (flatten buckets)
  picked_short short = elim picked [
    | inl (coin, before, after, split, covers, same) ↦
        absurd (subst (λ q. q.1 < required → ⊥) same (λ less. omega arith) short)
    | inr prefix ↦ elim prefix.covers [
      | inl enough ↦ absurd (omega arith)
      | inr none_left ↦ omega (
        arith,
        prefix.sum,
        coins_value-reverse (flatten buckets),
        ap coins_value (from_descending buckets prefix.split),
        coins_value-append p.0 prefix.rest,
        ap coins_value none_left,
        no_value,
      )
    ]
  ]

  pub picked-All : (P : CandidateCoin → Type 0) → All P (flatten buckets) → All P p.0
  picked-All P h = elim picked [
    | inl (coin, before, after, split, covers, same) ↦
        subst (λ q. All P q.0) same
          ((All-split P before (coin ∷ after) (subst (All P) split h)).1.0, tt)
    | inr prefix ↦
        (All-split P p.0 prefix.rest (
          subst (All P) (from_descending buckets prefix.split)
            (All-reverse P (flatten buckets) h))).0
  ]
