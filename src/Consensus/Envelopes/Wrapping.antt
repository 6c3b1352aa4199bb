-- ===== src/Consensus/Envelopes/Wrapping.antt =====
-- A wrapping carries the intent that it was built from.
use quai_rust_sdk.Prelude.{
  ℕ, ◌+◌, ◌*◌, ◌≤◌, ◌≡◌, ◌≢◌, refl, sym, ap, ◌∙◌, ◌↔◌, arith, List, [], ◌∷◌, length, All, ok,
  ok-injective, >>=_iff, ok_or_iff,
}
use quai_rust_sdk.Primitives.Shard.{Zone}
use quai_rust_sdk.Primitives.Address.{Address, LedgerAddress, quai, qi, ledger}
use quai_rust_sdk.Consensus.Error.{TransactionError, invalid_scope, invalid_field}
use quai_rust_sdk.Consensus.Denomination.{Denomination}
use quai_rust_sdk.Consensus.Qi.{
  wrapping, QiInput, QiOutput, QiTransaction, quai_from_slice, validate_for,
}
use quai_rust_sdk.Consensus.Qi.Valid.{IsValid}
use quai_rust_sdk.Consensus.Qi.Sizes.{slice_iff}
use quai_rust_sdk.Consensus.Qi.Exact.{validate_for_iff}
use quai_rust_sdk.Consensus.Envelopes.{
  QiWrappingIntent, QiWrappingTransaction, first_quai, check_parts, wrapping_from_transaction,
  wrapping_transaction, new_wrapping,
}
use quai_rust_sdk.Consensus.Envelopes.Parts.{
  IsOf, first_quai_lem, length-outputs_to, check_parts-ok, check_parts_passes,
}

-- What the private fields of an intent guarantee.
abbrev pub IsWrappingIntent : QiWrappingIntent → Type 0
IsWrappingIntent i = IsOf quai i.destination × IsOf quai i.owner_contract

quai_from_slice_lem : (a : LedgerAddress) → IsOf quai a → quai_from_slice a.address.bytes ≡ ok a
unfolding quai_from_slice
quai_from_slice_lem a (size, place) = (slice_iff quai a.address.bytes a).1 (size, refl, place)

module _ {K : Type 0} (key_address : K → Address) (chain_id : ℕ) (inputs : List (QiInput K))
    (change : List QiOutput) where
  wrapping_read :
      (d : Denomination) (ds : List Denomination) (intent : QiWrappingIntent) (z : Zone)
      → IsWrappingIntent intent
      → let t = wrapping_transaction chain_id inputs (d ∷ ds) change intent in
        validate_for key_address wrapping t ≡ ok z
        → wrapping_from_transaction key_address t ≡ ok (record { transaction = t; intent = intent })
  unfolding wrapping_from_transaction wrapping_transaction
  wrapping_read d ds intent z (to, owner) e =
      let t = wrapping_transaction chain_id inputs (d ∷ ds) change intent in
      let built : QiWrappingTransaction K = record { transaction = t; intent = intent } in
      (>>=_iff (validate_for key_address wrapping t) _ built).1 (
        z,
        e,
        (ok_or_iff (first_quai t.outputs) invalid_scope _ built).1 (
          intent.destination,
          first_quai_lem intent.destination d ds change to,
          (>>=_iff (quai_from_slice t.payload) _ built).1
              (intent.owner_contract, quai_from_slice_lem intent.owner_contract owner, refl),
        ),
      )

  wrapping_validated :
      (t : QiTransaction K) (out : QiWrappingTransaction K)
      → wrapping_from_transaction key_address t ≡ ok out
      → (z : Zone) × (validate_for key_address wrapping t ≡ ok z)
  unfolding wrapping_from_transaction
  wrapping_validated t out h =
      let (z, e, _) = (>>=_iff (validate_for key_address wrapping t) _ out).0 h in (z, e)

-- A wrapping is built exactly when it wraps something, its change is on the Qi ledger and the
-- transaction is a valid wrapping; it then carries the intent and the payload it was given.
pub new_wrapping_iff :
    {K : Type 0} (key_address : K → Address) (chain_id : ℕ) (inputs : List (QiInput K))
    (wrapped : List Denomination) (change : List QiOutput) (intent : QiWrappingIntent)
    (out : QiWrappingTransaction K)
    → IsWrappingIntent intent
    → (new_wrapping key_address chain_id inputs wrapped change intent ≡ ok out) ↔ (
        (wrapped ≢ [])
        × All (λ o. ledger o.address ≡ qi) change
        × ((z : Zone) × IsValid key_address wrapping
              (wrapping_transaction chain_id inputs wrapped change intent)
              z)
        × (out ≡ record {
          transaction = wrapping_transaction chain_id inputs wrapped change intent;
          intent = intent;
        }))
unfolding new_wrapping
new_wrapping_iff key_address chain_id inputs [] change intent out ok_intent =
    (λ h. cc, λ h. absurd (h.0 refl))
new_wrapping_iff {K = K} key_address chain_id inputs (d ∷ ds) change intent out ok_intent =
    (forth, back)
  where
    t : QiTransaction K
    t = wrapping_transaction chain_id inputs (d ∷ ds) change intent

    built : QiWrappingTransaction K
    built = record { transaction = t; intent = intent }

    why : TransactionError
    why = invalid_field "missing wrapping output"

    forth :
        new_wrapping key_address chain_id inputs (d ∷ ds) change intent ≡ ok out
        → ((d ∷ ds) ≢ [])
          × All (λ o. ledger o.address ≡ qi) change
          × ((z : Zone) × IsValid key_address wrapping t z)
          × (out ≡ built)
    forth h =
        let (_, parts, h1) =
          (>>=_iff (check_parts (length inputs) (d ∷ ds) change why) _ out).0 h in
        let (some_of, plain) = check_parts-ok (length inputs) (d ∷ ds) change why parts in
        let (z, e) = wrapping_validated key_address chain_id inputs change t out h1 in
        (
          some_of,
          plain,
          (z, (validate_for_iff key_address wrapping t z).0 e),
          ok-injective
              (sym h1 ∙ wrapping_read key_address chain_id inputs change d ds intent z ok_intent e),
        )

    count :
        (z : Zone)
        → IsValid key_address wrapping t z
        → length inputs * 3 + (length (d ∷ ds) + length change) + 3 ≤ 16384
    count z v =
        unfold wrapping_transaction in
        omega (arith, v.messages, length-outputs_to intent.destination.address (d ∷ ds) change)

    back :
        ((d ∷ ds) ≢ [])
          × All (λ o. ledger o.address ≡ qi) change
          × ((z : Zone) × IsValid key_address wrapping t z)
          × (out ≡ built)
        → new_wrapping key_address chain_id inputs (d ∷ ds) change intent ≡ ok out
    back (some_of, plain, (z, v), same) =
        (>>=_iff (check_parts (length inputs) (d ∷ ds) change why) _ out).1 (
          tt,
          check_parts_passes (length inputs) (d ∷ ds) change why some_of plain (count z v),
          wrapping_read key_address chain_id inputs change d ds intent z ok_intent
                ((validate_for_iff key_address wrapping t z).1 v)
              ∙ ap ok (sym same),
        )
