-- ===== src/Wallet/Selection/Choose/Short.antt =====
-- When a selection reports insufficient funds (selection.rs).
use quai_rust_sdk.Prelude.{
  ℕ, ◌+◌, ◌-◌, ◌≤◌, ◌<◌, ◌≡◌, subst, inl, inr, ◌≢◌, List, [], ◌∷◌, flatten, length, All, arith, ok,
  err, Result, Option, none, some, Bool, true, false, ltb, leb, ◌==◌, Bool-cases, ltb→lt,
  not_ltb→le, >>=-eq-err, reject_if, ◌>>◌, reject_if-err, ok_or-err, ok-injective,
}
use quai_rust_sdk.Consensus.Denomination.{Denomination, value}
use quai_rust_sdk.Wallet.Selection.Types.{
  OutPoint, CandidateCoin, SelectionRequest, CoinSelection, SelectionError, invalid_coin, overflow,
  insufficient_funds, limit_exceeded, checked_add, checked_add-some,
}
use quai_rust_sdk.Wallet.Selection.Denominate.{
  count_into, no_capacity, denominate_available, denominate_largest,
}
use quai_rust_sdk.Wallet.Selection.Denominate.Worth.{worth}
use quai_rust_sdk.Wallet.Selection.Denominate.Split.{IsInventory}
use quai_rust_sdk.Wallet.Selection.Denominate.Available.{
  denominate_available_lem, denominate_available_ok,
}
use quai_rust_sdk.Wallet.Selection.Denominate.Largest.{denominate_largest_lem}
use quai_rust_sdk.Wallet.Selection.Bucket.{
  Buckets, no_buckets, is_bad_coin, bucket_loop, validate_request, validate_and_bucket,
}
use quai_rust_sdk.Wallet.Selection.Bucket.Coins.{denominations, coins_value}
use quai_rust_sdk.Wallet.Selection.Bucket.Keeps.{eligible_value, validated-All, validated_value}
use quai_rust_sdk.Wallet.Selection.Choose.{
  find_covering, greedy, pick_from, pick, spend_from, choose, select_fewest, select_fewest_inner,
  descending,
}
use quai_rust_sdk.Wallet.Selection.Choose.Pick.{Picked, pick_lem, picked_short, picked_sum}
use quai_rust_sdk.Wallet.Selection.Choose.Sound.{IsValidCoin, inventory}
use quai_rust_sdk.Wallet.Selection.Choose.Fewest.{All-allowed, validate_request-ok}

-- The parts that never report it.
greedy-ne-short :
    (required room total : ℕ) (coins : List CandidateCoin)
    → greedy required room total coins ≢ err insufficient_funds
unfolding greedy
greedy-ne-short required room total [] h = cc
greedy-ne-short required room total (c ∷ coins) h = elim (Bool-cases (leb required total)) [
  | inl e ↦ absurd (succeeded (rw (e, greedy) at h))
  | inr e ↦ elim (reject_if-err (room == 0) limit_exceeded _ (rw (e, greedy) at h)) [
    | inl (_, other) ↦ cc
    | inr (_, h₁) ↦ elim (ok_or-err (checked_add 256 total (value c.denomination)) overflow _ h₁) [
      | inl other ↦ cc
      | inr (total', _, h₂) ↦ elim (>>=-eq-err (greedy required (room - 1) total' coins) _ h₂) [
        | inl later ↦ greedy-ne-short required (room - 1) total' coins later
        | inr (p, _, impossible) ↦ cc
      ]
    ]
  ]
]
  where
    succeeded :
        ◌≡◌ {A = Result SelectionError (List CandidateCoin × ℕ)}
          (ok ([], total))
          (err insufficient_funds)
        → ⊥
    succeeded h = cc

pick-ne-short :
    (buckets : Buckets) (request : SelectionRequest) (required : ℕ)
    → pick buckets request required ≢ err insufficient_funds
unfolding pick
pick-ne-short buckets request required = go (find_covering required (flatten buckets))
  where
    go : (o : Option CandidateCoin) → pick_from buckets request required o ≢ err insufficient_funds
    go none h = greedy-ne-short _ _ _ (descending buckets) (pick_none h)
      where
        pick_none :
            pick_from buckets request required none ≡ err insufficient_funds
            → greedy required request.max_inputs 0 (descending buckets) ≡ err insufficient_funds
        pick_none h = unfold pick_from in h
    go (some c) h = pick_some h
      where
        pick_some : pick_from buckets request required (some c) ≡ err insufficient_funds → ⊥
        pick_some h = unfold pick_from in cc

loop-ne-short :
    (request : SelectionRequest) (cs : List CandidateCoin) (seen : List OutPoint) (bs : Buckets)
    → bucket_loop request cs seen bs ≢ err insufficient_funds
unfolding bucket_loop
loop-ne-short request [] seen bs h = cc
loop-ne-short request (c ∷ cs) seen bs h =
    elim (reject_if-err (is_bad_coin seen c) invalid_coin _ h) [
      | inl (_, other) ↦ cc
      | inr (_, rest) ↦ loop-ne-short request cs (c.outpoint ∷ seen) _ rest
    ]

-- The recipient can be paid from inputs that cover the target, and the rest is still there.
spend_from-ne-short :
    (request : SelectionRequest) (aggregated : Bool) (c : List ℕ)
    → IsInventory c
    → request.target ≤ worth 0 c
    → spend_from request aggregated c ≢ err insufficient_funds
unfolding spend_from
spend_from-ne-short request true c inv enough h =
    elim (>>=-eq-err (denominate_largest request.target request.max_outputs) _ h) [
      | inl e ↦ elim (denominate_largest_lem request.target request.max_outputs) [
        | inl (outputs, e', _, _) ↦ cc
        | inr (e', _) ↦ cc
      ]
      | inr (outputs, _, impossible) ↦ cc
    ]
spend_from-ne-short request false c inv enough h =
    elim (denominate_available_lem request.target c request.max_outputs inv) [
      | inl (outputs, after, e, _) ↦ cc
      | inr (inl (e, _)) ↦ cc
      | inr (inr (e, less)) ↦ absurd (omega arith)
    ]

spend_from_left :
    (request : SelectionRequest) (aggregated : Bool) (c : List ℕ) {p : List Denomination × List ℕ}
    → IsInventory c
    → spend_from request aggregated c ≡ ok p
    → IsInventory p.1 × (worth 0 c ≤ worth 0 p.1 + request.target)
unfolding spend_from
spend_from_left request true c {p} inv h =
    elim (denominate_largest_lem request.target request.max_outputs) [
      | inl (outputs, e, _, _) ↦
          subst (λ q. IsInventory q.1 × (worth 0 c ≤ worth 0 q.1 + request.target))
            {x = (outputs, c)} {y = p} (ok-injective (rw e at h)) (inv, omega arith)
      | inr (e, _) ↦ absurd (failed (rw e at h))
    ]
  where
    failed :
        ◌≡◌ {A = Result SelectionError (List Denomination × List ℕ)} (err limit_exceeded) (ok p) → ⊥
    failed h = cc
spend_from_left request false c {p} inv h =
    let payment =
      denominate_available_ok request.target c request.max_outputs {outputs = p.0} {after = p.1} inv
        h in
    (payment.inventory, omega (arith, payment.conserved))

change-ne-short :
    (v room : ℕ) (c : List ℕ)
    → IsInventory c
    → v ≤ worth 0 c
    → denominate_available v c room ≢ err insufficient_funds
change-ne-short v room c inv enough h = elim (denominate_available_lem v c room inv) [
  | inl (outputs, after, e, _) ↦ cc
  | inr (inl (e, _)) ↦ cc
  | inr (inr (e, less)) ↦ absurd (omega arith)
]

last_guard-ne-short :
    (b : Bool) (sel : CoinSelection)
    → (reject_if b limit_exceeded >> ok sel) ≢ err insufficient_funds
last_guard-ne-short true sel h = cc
last_guard-ne-short false sel h = cc

-- After the coins are picked: covered, nothing reports it any more.
module _ (buckets : Buckets) (request : SelectionRequest) (required : ℕ) (aggregated : Bool)
    (valid : All IsValidCoin (flatten buckets)) (some_input : 1 ≤ request.max_inputs)
    (few : request.max_inputs ≤ 4096) (target : request.target ≤ required)
    (p : List CandidateCoin × ℕ) (picked : Picked buckets request required p) where
  counts : List ℕ
  counts = count_into (denominations p.0) no_capacity

  counts_lem : IsInventory counts × (worth 0 counts ≡ p.1)
  unfolding counts
  counts_lem =
      let (inv, total) =
        inventory buckets request required aggregated valid some_input few p picked in
      (inv, omega (arith, total 0, picked_sum buckets request required {p = p} picked))

  covered-ne-short :
      required ≤ p.1
      → (q : List Denomination × List ℕ) → spend_from request aggregated counts ≡ ok q
      → denominate_available (p.1 - required) q.1 (request.max_outputs - length q.0)
        ≢ err insufficient_funds
  covered-ne-short enough q spending =
      let (inv, left) = spend_from_left request aggregated counts {p = q} counts_lem.0 spending in
      change-ne-short (p.1 - required) (request.max_outputs - length q.0) q.1 inv
        (omega (arith, left, counts_lem.1))

  spending-ne-short : required ≤ p.1 → spend_from request aggregated counts ≢ err insufficient_funds
  spending-ne-short enough =
      spend_from-ne-short request aggregated counts counts_lem.0 (omega (arith, counts_lem.1))

-- So the choice reports it only when all coins of the buckets are worth less than required.
choose-short :
    (buckets : Buckets) (request : SelectionRequest) (required : ℕ) (aggregated : Bool)
    → All IsValidCoin (flatten buckets)
    → 1 ≤ request.max_inputs
    → request.max_inputs ≤ 4096
    → request.target ≤ required
    → choose buckets request required aggregated ≡ err insufficient_funds
    → coins_value (flatten buckets) < required
unfolding choose counts
choose-short buckets request required aggregated valid some_input few target h =
    elim (>>=-eq-err (pick buckets request required) _ h) [
      | inl e ↦ absurd (pick-ne-short buckets request required e)
      | inr (p, picking, h₁) ↦
          let picked = pick_lem buckets request required {p = p} picking in
          elim (reject_if-err (ltb p.1 required) insufficient_funds _ h₁) [
            | inl (less, _) ↦ omega (
              arith,
              picked_short buckets request required {p = p} picked (ltb→lt p.1 required less),
              ltb→lt p.1 required less,
            )
            | inr (enough, h₂) ↦
                let covers = not_ltb→le p.1 required enough in
                elim (>>=-eq-err
                  (spend_from request aggregated (count_into (denominations p.0) no_capacity)) _
                  h₂) [
                    | inl e ↦ absurd (
                        spending-ne-short buckets request required aggregated valid some_input few
                          target p picked covers e)
                    | inr (q, spending, h₃) ↦
                        elim (>>=-eq-err
                          (denominate_available (p.1 - required) q.1
                            (request.max_outputs - length q.0))
                          _ h₃) [
                            | inl e ↦ absurd (
                                covered-ne-short buckets request required aggregated valid
                                  some_input few target p picked covers q spending e)
                            | inr (r, _, h₄) ↦ absurd (last_guard-ne-short _ _ h₄)
                          ]
                  ]
          ]
    ]

snapshot-ne-short :
    (coins : List CandidateCoin) (request : SelectionRequest)
    → validate_and_bucket coins request ≢ err insufficient_funds
unfolding validate_and_bucket
snapshot-ne-short coins request h =
    elim (reject_if-err (ltb 100000 (length coins)) limit_exceeded _ h) [
      | inl (_, other) ↦ cc
      | inr (_, rest) ↦ loop-ne-short request coins [] no_buckets rest
    ]

-- From a snapshot of valid denominations, `select_fewest` reports insufficient funds only when the
-- eligible coins of the snapshot together are worth less than target and fee.
pub select_fewest-short :
    (coins : List CandidateCoin) (request : SelectionRequest)
    → All IsValidCoin coins
    → select_fewest coins request ≡ err insufficient_funds
    → eligible_value request coins < request.target + request.fee
unfolding select_fewest select_fewest_inner
select_fewest-short coins request valid h = elim (>>=-eq-err (validate_request request) _ h) [
  | inl e ↦ absurd (request-ne-short e)
  | inr (_, checked, h₁) ↦
      let r = validate_request-ok request checked in
      elim (ok_or-err (checked_add 256 request.target request.fee) overflow _ h₁) [
        | inl other ↦ cc
        | inr (required, sum, h₂) ↦
            let (exact, _) = checked_add-some 256 request.target request.fee sum in
            elim (>>=-eq-err (validate_and_bucket coins request) _ h₂) [
              | inl e ↦ absurd (snapshot-ne-short coins request e)
              | inr (buckets, validated, h₃) ↦ omega (
                arith,
                exact,
                validated_value coins request validated valid,
                choose-short buckets request required false
                    (validated-All coins request validated IsValidCoin
                      (All-allowed request coins valid))
                    r.some_input r.few_inputs (omega (arith, exact)) h₃,
              )
            ]
      ]
]
  where
    request-ne-short : validate_request request ≢ err insufficient_funds
    request-ne-short e = unfold validate_request in ground arith
