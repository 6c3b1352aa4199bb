-- ===== src/Wallet/Selection/Choose/Rounds.antt =====
-- The fee rounds of `select_with_fee` (selection.rs).
use quai_rust_sdk.Prelude.{
  ℕ, zero, suc, ◌+◌, ◌≤◌, ◌<◌, ◌≡◌, refl, sym, subst, ap, [], ◌∷◌, ◌>>◌, reject_if, not_leb→lt, ◌∙◌,
  ◌⊎◌, inl, inr, List, length, All, arith, ok, err, Result, false, not, ltb, leb, ◌&&◌, Bool-cases,
  leb→le, not_ltb→le, >>=-eq-ok, reject_if-ok, ok_or-ok, ok-injective, if◌then◌else◌,
}
use quai_rust_sdk.Wallet.Selection.Types.{
  OutPoint, CandidateCoin, SelectionRequest, CoinSelection, SelectionError, invalid_request,
  overflow, checked_add, checked_add-some, fee_budget_exceeded, invalid_coin, limit_exceeded,
}
use quai_rust_sdk.Wallet.Selection.Bucket.{
  Buckets, no_buckets, is_bad_coin, is_eligible, push_coin, bucket_loop, validate_request,
  validate_and_bucket,
}
use quai_rust_sdk.Wallet.Selection.Choose.{Estimator, choose, fee_rounds, select_with_fee}
use quai_rust_sdk.Wallet.Selection.Choose.Sound.{IsValidCoin}
use quai_rust_sdk.Wallet.Selection.Choose.Fewest.{
  IsSelection, IsRequest, validate_request-ok, choice-IsSelection,
}

abbrev pub with_fee : SelectionRequest → ℕ → SelectionRequest
with_fee request fee = record request { fee = fee }

-- The round that returns: its selection is one for the fee that it states, and its quote is covered.
pub record IsCovered (estimate : Estimator) (buckets : Buckets) (request : SelectionRequest)
    (fee bound : ℕ) (sel : CoinSelection) : Type 0 where
  pub final_fee : ℕ
  pub at_least : fee ≤ final_fee
  pub at_most : final_fee ≤ bound
  pub chosen :
      choose buckets (with_fee request final_fee) (request.target + final_fee) false ≡ ok sel
  pub calls : ℕ
  pub quote : ℕ
  pub quoted : estimate calls sel ≡ ok quote
  pub covered : quote ≤ final_fee

-- How a round ends after the quote: it returns, or it goes on with a higher fee within the budget.
decide_round :
    (quote fee max_fee : ℕ) (s sel : CoinSelection) (next : Result SelectionError CoinSelection)
    → (if leb quote fee then ok s else if ltb max_fee quote then err fee_budget_exceeded else next)
      ≡ ok sel
    → ((s ≡ sel) × (quote ≤ fee)) ⊎ ((fee < quote) × (quote ≤ max_fee) × (next ≡ ok sel))
decide_round quote fee max_fee s sel next h = elim (Bool-cases (leb quote fee)) [
  | inl e ↦ inl (ok-injective (rw e at h), leb→le quote fee e)
  | inr e ↦ elim (Bool-cases (ltb max_fee quote)) [
    | inl over ↦ absurd (failed (rw (e, over) at h))
    | inr fits ↦ inr (not_leb→lt quote fee e, not_ltb→le max_fee quote fits, rw (e, fits) at h)
  ]
]
  where
    failed : ◌≡◌ {A = Result SelectionError CoinSelection} (err fee_budget_exceeded) (ok sel) → ⊥
    failed h = cc

rounds_lem :
    (estimate : Estimator) (buckets : Buckets) (request : SelectionRequest) (rounds calls fee : ℕ)
    {sel : CoinSelection}
    → fee ≤ request.max_fee
    → fee_rounds estimate buckets request rounds calls fee ≡ ok sel
    → IsCovered estimate buckets request fee request.max_fee sel
unfolding fee_rounds
rounds_lem estimate buckets request zero calls fee budget h = cc
rounds_lem estimate buckets request (suc rounds) calls fee {sel} budget h =
    let (required, sum, h₁) = ok_or-ok (checked_add 256 request.target fee) overflow _ h in
    let (exact, _) = checked_add-some 256 request.target fee sum in
    let (s, chosen, h₂) = >>=-eq-ok (choose buckets (with_fee request fee) required false) _ h₁ in
    let (quote, quoted, h₃) = >>=-eq-ok (estimate calls s) _ h₂ in
    elim (decide_round quote fee request.max_fee s sel _ h₃) [
      | inl (same, covered) ↦
          subst (IsCovered estimate buckets request fee request.max_fee) same (record {
            final_fee = fee;
            at_least = omega arith;
            at_most = budget;
            chosen = subst (λ n. choose buckets (with_fee request fee) n false ≡ ok s) exact chosen;
            calls = calls;
            quote = quote;
            quoted = quoted;
            covered = covered;
          })
      | inr (more, fits, rest) ↦
          raise_start fee quote (omega arith)
            (rounds_lem estimate buckets request rounds (suc calls) quote {sel = sel} fits rest)
    ]
  where
    raise_start :
        (low high : ℕ)
        → low ≤ high
        → IsCovered estimate buckets request high request.max_fee sel
        → IsCovered estimate buckets request low request.max_fee sel
    raise_start low high le c = record {
      final_fee = c.final_fee;
      at_least = omega (arith, c.at_least);
      at_most = c.at_most;
      chosen = c.chosen;
      calls = c.calls;
      quote = c.quote;
      quoted = c.quoted;
      covered = c.covered;
    }

-- The buckets do not depend on the fee.
loop-with_fee :
    (request : SelectionRequest) (fee : ℕ) (cs : List CandidateCoin) (seen : List OutPoint)
    (bs : Buckets)
    → bucket_loop (with_fee request fee) cs seen bs ≡ bucket_loop request cs seen bs
unfolding bucket_loop
loop-with_fee request fee [] seen bs = refl
loop-with_fee request fee (c ∷ cs) seen bs =
    ap (λ (r : Result SelectionError Buckets). reject_if (is_bad_coin seen c) invalid_coin >> r)
      (loop-with_fee request fee cs (c.outpoint ∷ seen)
        (if is_eligible request c then push_coin c bs else bs))

validate-with_fee :
    (coins : List CandidateCoin) (request : SelectionRequest) (fee : ℕ)
    → validate_and_bucket coins (with_fee request fee) ≡ validate_and_bucket coins request
unfolding validate_and_bucket
validate-with_fee coins request fee =
    ap
      (λ (r : Result SelectionError Buckets).
        reject_if (ltb 100000 (length coins)) limit_exceeded >> r)
      (loop-with_fee request fee coins [] no_buckets)

IsRequest-with_fee :
    (request : SelectionRequest) (fee : ℕ)
    → fee ≤ request.max_fee
    → IsRequest request
    → IsRequest (with_fee request fee)
IsRequest-with_fee request fee h r = record {
  positive = r.positive;
  budget = h;
  some_input = r.some_input;
  few_inputs = r.few_inputs;
  some_output = r.some_output;
  few_outputs = r.few_outputs;
}

-- The selection that `select_with_fee` returns is one for the fee that it states, the estimator
-- quoted no more than that fee for it, and the fee lies between the first one and the approved
-- maximum.
pub select_with_fee-covers :
    (estimate : Estimator) (coins : List CandidateCoin) (request : SelectionRequest)
    (max_rounds : ℕ) {sel : CoinSelection}
    → All IsValidCoin coins
    → select_with_fee estimate coins request max_rounds ≡ ok sel
    → IsSelection coins (with_fee request sel.fee) false sel
      × (request.fee ≤ sel.fee)
      × (sel.fee ≤ request.max_fee)
      × ((calls : ℕ) × (quote : ℕ) × (estimate calls sel ≡ ok quote) × (quote ≤ sel.fee))
unfolding select_with_fee
select_with_fee-covers estimate coins request max_rounds {sel} valid h =
    let (_, h₁) = reject_if-ok (not (leb 1 max_rounds && leb max_rounds 32)) invalid_request _ h in
    let (_, checked, h₂) = >>=-eq-ok (validate_request request) _ h₁ in
    let (buckets, validated, h₃) = >>=-eq-ok (validate_and_bucket coins request) _ h₂ in
    let r = validate_request-ok request checked in
    let c = rounds_lem estimate buckets request max_rounds 0 request.fee {sel = sel} r.budget h₃ in
    let s =
      choice-IsSelection coins (with_fee request c.final_fee) false {buckets = buckets} {sel = sel}
        (IsRequest-with_fee request c.final_fee c.at_most r)
        (validate-with_fee coins request c.final_fee ∙ validated) valid c.chosen in
    (
      subst (λ fee. IsSelection coins (with_fee request fee) false sel) (sym s.fee) s,
      omega (arith, s.fee, c.at_least),
      omega (arith, s.fee, c.at_most),
      (c.calls, c.quote, c.quoted, omega (arith, s.fee, c.covered)),
    )
