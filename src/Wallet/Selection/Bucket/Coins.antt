-- ===== src/Wallet/Selection/Bucket/Coins.antt =====
-- Measures of a list of coins: its value, and how often it spends an outpoint.
use quai_rust_sdk.Prelude.{
  ℕ, ◌+◌, ◌<◌, ◌≡◌, length, refl, ap, sym, subst, ◌∙◌, List, [], ◌∷◌, ◌++◌, map, reverse, All,
  All-append, arith, if◌then◌else◌,
}
use mathlib.Core.List.{reverse-cons}
use quai_rust_sdk.Consensus.Denomination.{Denomination}
use quai_rust_sdk.Wallet.Selection.Types.{OutPoint, CandidateCoin}
use quai_rust_sdk.Wallet.Selection.Denominate.Worth.{tally}
use quai_rust_sdk.Wallet.Selection.Bucket.{outpoint_eq}

abbrev pub denominations : List CandidateCoin → List Denomination
denominations = map (λ c. c.denomination)

-- The Qits of some coins.
abbrev pub coins_value : List CandidateCoin → ℕ
coins_value coins = tally 0 (denominations coins)

-- How often an outpoint is spent by some coins.
unfoldable pub spends : OutPoint → List CandidateCoin → ℕ
spends o [] = 0
spends o (c ∷ cs) = (if outpoint_eq c.outpoint o then 1 else 0) + spends o cs

pub spends-append :
    (o : OutPoint) (xs ys : List CandidateCoin) → spends o (xs ++ ys) ≡ spends o xs + spends o ys
unfolding spends
spends-append o [] ys = omega arith
spends-append o (x ∷ xs) ys = omega (arith, spends-append o xs ys)

pub spends-reverse : (o : OutPoint) (xs : List CandidateCoin) → spends o (reverse xs) ≡ spends o xs
unfolding spends
spends-reverse o [] = refl
spends-reverse o (x ∷ xs) =
    ap (spends o) (reverse-cons x xs)
    ∙ omega (arith, spends-append o (reverse xs) (x ∷ []), spends-reverse o xs)

pub coins_value-append :
    (xs ys : List CandidateCoin) → coins_value (xs ++ ys) ≡ coins_value xs + coins_value ys
unfolding tally
coins_value-append [] ys = omega arith
coins_value-append (x ∷ xs) ys = omega (arith, coins_value-append xs ys)

pub coins_value-reverse : (xs : List CandidateCoin) → coins_value (reverse xs) ≡ coins_value xs
unfolding tally
coins_value-reverse [] = refl
coins_value-reverse (x ∷ xs) =
    ap coins_value (reverse-cons x xs)
    ∙ omega (arith, coins_value-append (reverse xs) (x ∷ []), coins_value-reverse xs)

pub All-reverse {κ} :
    (P : CandidateCoin → Type κ) (xs : List CandidateCoin) → All P xs → All P (reverse xs)
All-reverse P [] h = h
All-reverse P (x ∷ xs) h =
    subst (All P) (sym (reverse-cons x xs))
      (All-append P (reverse xs) (x ∷ []) (All-reverse P xs h.1) (h.0, tt))

pub length-denominations : (cs : List CandidateCoin) → length (denominations cs) ≡ length cs
length-denominations [] = refl
length-denominations (c ∷ cs) = omega (arith, length-denominations cs)

-- Coins of some value are some coins.
pub nonempty : (cs : List CandidateCoin) → 0 < coins_value cs → 0 < length cs
unfolding tally
nonempty [] h = elim h [ ]
nonempty (c ∷ cs) h = omega arith
