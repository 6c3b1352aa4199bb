-- ===== src/Wallet/Selection/Bucket/Keeps.antt =====
-- What the buckets hold: the eligible coins of the snapshot, each outpoint once.
use quai_rust_sdk.Prelude.{
  ℕ, zero, suc, ◌+◌, ◌≤◌, ◌<◌, ◌≡◌, refl, ap, sym, subst, ◌∙◌, inl, inr, List, [], ◌∷◌, ◌++◌,
  flatten, length, length-set, set, get_or, All, All-append, All-split, arith, ok, Bool, true,
  false, Bool-cases, if◌then◌else◌, reject_if-ok, ltb, ok-injective,
}
use quai_rust_sdk.Primitives.Hash.{bytes_eq_sound}
use quai_rust_sdk.Consensus.Denomination.{value, IsDenomination}
use quai_rust_sdk.Wallet.Selection.Types.{
  OutPoint, CandidateCoin, SelectionRequest, invalid_coin, limit_exceeded,
}
use quai_rust_sdk.Wallet.Selection.Denominate.Worth.{tally, weight_self}
use quai_rust_sdk.Wallet.Selection.Bucket.{
  outpoint_eq, contains, is_bad_coin, is_eligible, Buckets, no_buckets, push_coin, bucket_loop,
  validate_and_bucket,
}
use quai_rust_sdk.Wallet.Selection.Bucket.Coins.{
  coins_value, coins_value-append, spends, spends-append,
}

-- The bucket at `i` with one more coin.
abbrev pushed : ℕ → CandidateCoin → Buckets → Buckets
pushed i c bs = set bs i (get_or bs i [] ++ (c ∷ []))

pushed-All :
    (P : CandidateCoin → Type 0) (i : ℕ) (c : CandidateCoin) (bs : Buckets)
    → All P (flatten bs)
    → P c
    → All P (flatten (pushed i c bs))
unfolding flatten
pushed-All P i c [] h p = h
pushed-All P zero c (b ∷ bs) h p =
    let (front, back) = All-split P b (flatten bs) h in
    All-append P (b ++ (c ∷ [])) (flatten bs) (All-append P b (c ∷ []) front (p, tt)) back
pushed-All P (suc i) c (b ∷ bs) h p =
    let (front, back) = All-split P b (flatten bs) h in
    All-append P b (flatten (pushed i c bs)) front (pushed-All P i c bs back p)

abbrev pub one_if : Bool → ℕ
one_if b = if b then 1 else 0

pushed-spends :
    (o : OutPoint) (i : ℕ) (c : CandidateCoin) (bs : Buckets)
    → spends o (flatten (pushed i c bs)) ≤ spends o (flatten bs) + one_if (outpoint_eq c.outpoint o)
unfolding flatten spends
pushed-spends o i c [] = omega arith
pushed-spends o zero c (b ∷ bs) = omega (
  arith,
  spends-append o (b ++ (c ∷ [])) (flatten bs),
  spends-append o b (c ∷ []),
  spends-append o b (flatten bs),
)
pushed-spends o (suc i) c (b ∷ bs) = omega (
  arith,
  spends-append o b (flatten (pushed i c bs)),
  spends-append o b (flatten bs),
  pushed-spends o i c bs,
)

pushed-value :
    (i : ℕ) (c : CandidateCoin) (bs : Buckets)
    → i < length bs
    → coins_value (flatten (pushed i c bs)) ≡ coins_value (flatten bs) + value c.denomination
unfolding flatten tally
pushed-value i c [] h = elim h [ ]
pushed-value zero c (b ∷ bs) h = omega (
  arith,
  coins_value-append (b ++ (c ∷ [])) (flatten bs),
  coins_value-append b (c ∷ []),
  coins_value-append b (flatten bs),
  weight_self 0 c.denomination.index (omega arith),
)
pushed-value (suc i) c (b ∷ bs) h = omega (
  arith,
  coins_value-append b (flatten (pushed i c bs)),
  coins_value-append b (flatten bs),
  pushed-value i c bs (omega arith),
)

-- Equal outpoints are contained alike.
pub contains_same :
    (seen : List OutPoint) (a b : OutPoint)
    → outpoint_eq a b ≡ true
    → contains seen b ≡ contains seen a
contains_same seen a b h = ap (contains seen) (sym (same h))
  where
    same : outpoint_eq a b ≡ true → a ≡ b
    same h = ground (arith, bytes_eq_sound a.transaction_hash b.transaction_hash)

-- The Qits of the eligible coins.
unfoldable pub eligible_value : SelectionRequest → List CandidateCoin → ℕ
eligible_value request [] = 0
eligible_value request (c ∷ cs) =
    (if is_eligible request c then value c.denomination else 0) + eligible_value request cs

abbrev pub step_buckets : SelectionRequest → CandidateCoin → Buckets → Buckets
step_buckets request c bs = if is_eligible request c then push_coin c bs else bs

loop_step :
    (request : SelectionRequest) (c : CandidateCoin) (cs : List CandidateCoin)
    (seen : List OutPoint) (bs : Buckets) {out : Buckets}
    → bucket_loop request (c ∷ cs) seen bs ≡ ok out
    → (is_bad_coin seen c ≡ false)
      × (bucket_loop request cs (c.outpoint ∷ seen) (step_buckets request c bs) ≡ ok out)
unfolding bucket_loop
loop_step request c cs seen bs h = reject_if-ok (is_bad_coin seen c) invalid_coin _ h

step-All :
    (P : CandidateCoin → Type 0) (request : SelectionRequest) (c : CandidateCoin) (bs : Buckets)
    → (is_eligible request c ≡ true → P c)
    → All P (flatten bs)
    → All P (flatten (step_buckets request c bs))
unfolding push_coin
step-All P request c bs p h = elim (Bool-cases (is_eligible request c)) [
  | inl e ↦ rw e (pushed-All P c.denomination.index c bs h (p e))
  | inr e ↦ rw e h
]

loop-All :
    (P : CandidateCoin → Type 0) (request : SelectionRequest) (cs : List CandidateCoin)
    (seen : List OutPoint) (bs : Buckets) {out : Buckets}
    → All (λ c. is_eligible request c ≡ true → P c) cs
    → All P (flatten bs)
    → bucket_loop request cs seen bs ≡ ok out
    → All P (flatten out)
unfolding bucket_loop
loop-All P request [] seen bs p h e = subst (λ bs. All P (flatten bs)) (ok-injective e) h
loop-All P request (c ∷ cs) seen bs p h e =
    loop-All P request cs (c.outpoint ∷ seen) (step_buckets request c bs) p.1
      (step-All P request c bs p.0 h) (loop_step request c cs seen bs e).1

-- No outpoint occurs twice, and none that was not seen.
abbrev OnlySeen : List OutPoint → Buckets → Type 0
OnlySeen seen bs = (o : OutPoint) → spends o (flatten bs) ≤ one_if (contains seen o)

step-OnlySeen :
    (request : SelectionRequest) (c : CandidateCoin) (seen : List OutPoint) (bs : Buckets)
    → contains seen c.outpoint ≡ false
    → OnlySeen seen bs
    → OnlySeen (c.outpoint ∷ seen) (step_buckets request c bs)
unfolding push_coin contains
step-OnlySeen request c seen bs fresh h o = elim (Bool-cases (outpoint_eq c.outpoint o)) [
  | inl e ↦
      ground
        (arith, h o, contains_same seen c.outpoint o e, pushed-spends o c.denomination.index c bs)
  | inr e ↦ ground (arith, h o, pushed-spends o c.denomination.index c bs)
]

loop-spends :
    (request : SelectionRequest) (cs : List CandidateCoin) (seen : List OutPoint) (bs : Buckets)
    {out : Buckets}
    → OnlySeen seen bs
    → bucket_loop request cs seen bs ≡ ok out
    → (o : OutPoint) → spends o (flatten out) ≤ 1
unfolding bucket_loop
loop-spends request [] seen bs h e o =
    subst (λ bs. spends o (flatten bs) ≤ 1) (ok-injective e) (at_most_one (contains seen o) (h o))
  where
    at_most_one : (b : Bool) → spends o (flatten bs) ≤ one_if b → spends o (flatten bs) ≤ 1
    at_most_one true p = p
    at_most_one false p = omega arith
loop-spends request (c ∷ cs) seen bs h e o =
    let (good, rest) = loop_step request c cs seen bs e in
    loop-spends request cs (c.outpoint ∷ seen) (step_buckets request c bs)
      (step-OnlySeen request c seen bs (fresh good) h) rest o
  where
    fresh : is_bad_coin seen c ≡ false → contains seen c.outpoint ≡ false
    fresh good = unfold is_bad_coin in ground arith

pub step_size :
    (request : SelectionRequest) (c : CandidateCoin) (bs : Buckets)
    → length bs ≡ 15
    → length (step_buckets request c bs) ≡ 15
unfolding push_coin
step_size request c bs h = elim (Bool-cases (is_eligible request c)) [
  | inl e ↦ rw e (length-set bs c.denomination.index _ ∙ h)
  | inr e ↦ rw e h
]

pub step_value :
    (request : SelectionRequest) (c : CandidateCoin) (bs : Buckets)
    → length bs ≡ 15
    → IsDenomination c.denomination
    → coins_value (flatten (step_buckets request c bs))
      ≡ coins_value (flatten bs) + (if is_eligible request c then value c.denomination else 0)
unfolding push_coin
step_value request c bs size valid = elim (Bool-cases (is_eligible request c)) [
  | inl e ↦ rw e (pushed-value c.denomination.index c bs (rw size valid))
  | inr e ↦ rw e (omega arith)
]

loop_value :
    (request : SelectionRequest) (cs : List CandidateCoin) (seen : List OutPoint) (bs : Buckets)
    {out : Buckets}
    → length bs ≡ 15
    → All (λ c. IsDenomination c.denomination) cs
    → bucket_loop request cs seen bs ≡ ok out
    → coins_value (flatten out) ≡ coins_value (flatten bs) + eligible_value request cs
unfolding bucket_loop eligible_value
loop_value request [] seen bs size valid e =
    ap (λ (bs : Buckets). coins_value (flatten bs)) (sym (ok-injective e)) ∙ omega arith
loop_value request (c ∷ cs) seen bs size valid e = omega (
  arith,
  step_value request c bs size valid.0,
  loop_value request cs (c.outpoint ∷ seen) (step_buckets request c bs)
      (step_size request c bs size) valid.1 (loop_step request c cs seen bs e).1,
)

-- The buckets of a validated snapshot.
module _ (coins : List CandidateCoin) (request : SelectionRequest) {out : Buckets}
    (h : validate_and_bucket coins request ≡ ok out) where
  validated_loop : bucket_loop request coins [] no_buckets ≡ ok out
  unfolding validate_and_bucket
  validated_loop = (reject_if-ok (ltb 100000 (length coins)) limit_exceeded _ h).1

  pub validated-All :
      (P : CandidateCoin → Type 0)
      → All (λ c. is_eligible request c ≡ true → P c) coins
      → All P (flatten out)
  validated-All P p = loop-All P request coins [] no_buckets p (unfold flatten in tt) validated_loop

  pub validated-spends : (o : OutPoint) → spends o (flatten out) ≤ 1
  validated-spends =
      loop-spends request coins [] no_buckets (λ o. unfold flatten spends contains in omega arith)
        validated_loop

  pub validated_value :
      All (λ c. IsDenomination c.denomination) coins
      → coins_value (flatten out) ≡ eligible_value request coins
  validated_value valid =
      loop_value request coins [] no_buckets refl valid validated_loop
      ∙ (unfold flatten tally in omega arith)
