-- ===== src/Consensus/Envelopes/Parts.antt =====
-- The checks and the outputs that both kinds of envelope share.
use quai_rust_sdk.Prelude.{
  ℕ, ◌+◌, ◌*◌, ◌≤◌, ◌==◌, ◌≡◌, ◌≢◌, refl, ap, ◌↔◌, arith, Bool, true, false, ◌||◌, ltb, List, [],
  ◌∷◌, length, All, some, ok, reject_if_iff, reject_if_passes, ok_or_iff,
}
use quai_rust_sdk.Prelude.Words.{checked_add}
use quai_rust_sdk.Primitives.Address.{Address, LedgerAddress, Ledger, quai, qi, ledger, try_from}
use quai_rust_sdk.Primitives.Address.Scope.{try_from-ledger_iff}
use quai_rust_sdk.Consensus.Error.{TransactionError, too_large, invalid_scope}
use quai_rust_sdk.Consensus.Denomination.{Denomination}
use quai_rust_sdk.Consensus.Qi.{QiOutput, count_messages}
use quai_rust_sdk.Consensus.Qi.Valid.{IsIn}
use quai_rust_sdk.Consensus.Qi.Sizes.{length-zero, count_messages-some}
use quai_rust_sdk.Consensus.Envelopes.{first_quai, or_else, outputs_to, any_not_qi, check_parts}

-- What the types QuaiAddress and QiAddress promise of twenty bytes.
abbrev pub IsOf : Ledger → LedgerAddress → Type 0
IsOf l a = (length a.address.bytes ≡ 20) × IsIn l a.zone a.address

own_slice : (a : LedgerAddress) (l : Ledger) → IsOf l a → try_from l a.address ≡ ok a
own_slice a l (size, (ledger_lem, zone_lem)) =
    (try_from-ledger_iff l a.address a).1 (refl, zone_lem, ledger_lem)

pub first_quai_lem :
    (a : LedgerAddress) (d : Denomination) (ds : List Denomination) (change : List QiOutput)
    → IsOf quai a
    → first_quai (outputs_to a.address (d ∷ ds) change) ≡ some a
unfolding first_quai outputs_to
first_quai_lem a d ds change h =
    ap (λ r. or_else r (first_quai (outputs_to a.address ds change))) (own_slice a quai h)

pub length-outputs_to :
    (a : Address) (ds : List Denomination) (change : List QiOutput)
    → length (outputs_to a ds change) ≡ length ds + length change
unfolding outputs_to
length-outputs_to a [] change = omega arith
length-outputs_to a (d ∷ ds) change = omega (arith, length-outputs_to a ds change)

any_not_qi_iff :
    (os : List QiOutput) → (any_not_qi os ≡ false) ↔ All (λ o. ledger o.address ≡ qi) os
unfolding any_not_qi
any_not_qi_iff [] = (λ _. tt, λ _. refl)
any_not_qi_iff (o ∷ os) = by_ledger (ledger o.address) (any_not_qi os) (any_not_qi_iff os)
  where
    by_ledger :
        {P : Type 0} (l : Ledger) (rest : Bool)
        → (rest ≡ false) ↔ P
        → ((elim l as (λ _. Bool) [ quai ↦ true | qi ↦ rest ]) ≡ false) ↔ ((l ≡ qi) × P)
    by_ledger quai rest h = (λ e. cc, λ e. cc (e.0))
    by_ledger qi rest h = (λ e. (refl, h.0 e), λ e. h.1 e.1)

-- The sum of two counts that are within the bound on messages does not overflow.
sum_lem : (n a b : ℕ) → n * 3 + (a + b) + 3 ≤ 16384 → checked_add 64 a b ≡ some (a + b)
sum_lem n a b h = ground arith

guard_lem :
    (n m c : ℕ)
    → c ≡ n * 3 + m + 3
    → c ≤ 16384
    → (ltb 16384 c || (ltb 65535 n || ltb 65535 m)) ≡ false
guard_lem n m c e h = ground arith

pub check_parts-ok :
    (n : ℕ) (ds : List Denomination) (change : List QiOutput) (why : TransactionError)
    → check_parts n ds change why ≡ ok tt
    → (ds ≢ []) × All (λ o. ledger o.address ≡ qi) change
unfolding check_parts
check_parts-ok n ds change why h =
    let (some_of, h1) = (reject_if_iff (length ds == 0) why _ tt).0 h in
    let (m, _, h2) = (ok_or_iff (checked_add 64 (length ds) (length change)) too_large _ tt).0 h1 in
    let (c, _, h3) = (ok_or_iff (count_messages n m) too_large _ tt).0 h2 in
    let (_, h4) = (reject_if_iff _ too_large _ tt).0 h3 in
    (
      (length-zero ds).0 some_of,
      (any_not_qi_iff change).0 ((reject_if_passes (any_not_qi change) invalid_scope).0 h4),
    )

pub check_parts_passes :
    (n : ℕ) (ds : List Denomination) (change : List QiOutput) (why : TransactionError)
    → ds ≢ []
    → All (λ o. ledger o.address ≡ qi) change
    → n * 3 + (length ds + length change) + 3 ≤ 16384
    → check_parts n ds change why ≡ ok tt
unfolding check_parts
check_parts_passes n ds change why some_of plain count =
    let m = length ds + length change in
    (reject_if_iff (length ds == 0) why _ tt).1 (
      (length-zero ds).1 some_of,
      (ok_or_iff (checked_add 64 (length ds) (length change)) too_large _ tt).1 (
        m,
        sum_lem n (length ds) (length change) count,
        (ok_or_iff (count_messages n m) too_large _ tt).1 (
          n * 3 + m + 3,
          count_messages-some n m count,
          (reject_if_iff _ too_large _ tt).1 (
            guard_lem n m (n * 3 + m + 3) refl count,
            (reject_if_passes (any_not_qi change) invalid_scope).1
                ((any_not_qi_iff change).1 plain),
          ),
        ),
      ),
    )
