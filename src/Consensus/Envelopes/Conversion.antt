-- ===== src/Consensus/Envelopes/Conversion.antt =====
-- A conversion carries the intent that it was built from.
use quai_rust_sdk.Prelude.{
  ℕ, ◌+◌, ◌*◌, ◌≤◌, ◌≡◌, ◌≢◌, refl, sym, ap, ◌∙◌, ◌↔◌, arith, List, [], ◌∷◌, ◌++◌, length, All, ok,
  ok-injective, >>=_iff, reject_if_iff, ok_or_iff,
}
use quai_rust_sdk.Primitives.Bytes.{
  take, drop, to_be_bytes, from_be_bytes, take-append, drop-append, length-to_be_bytes,
  from_be_bytes-to_be_bytes,
}
use quai_rust_sdk.Primitives.Shard.{Zone}
use quai_rust_sdk.Primitives.Address.{Address, LedgerAddress, quai, qi, ledger}
use quai_rust_sdk.Consensus.Error.{TransactionError, invalid_scope, invalid_field}
use quai_rust_sdk.Consensus.Denomination.{Denomination}
use quai_rust_sdk.Consensus.Qi.{
  conversion, QiInput, QiOutput, QiTransaction, new_slippage, qi_from_slice, validate_for,
  ConversionSlippage,
}
use quai_rust_sdk.Consensus.Qi.Valid.{IsValid}
use quai_rust_sdk.Consensus.Qi.Sizes.{slice_iff, within_iff}
use quai_rust_sdk.Consensus.Qi.Exact.{validate_for_iff}
use quai_rust_sdk.Consensus.Envelopes.{
  QiConversionIntent, QiConversionTransaction, first_quai, check_parts, conversion_from_transaction,
  conversion_transaction, new_conversion,
}
use quai_rust_sdk.Consensus.Envelopes.Parts.{
  IsOf, first_quai_lem, length-outputs_to, check_parts-ok, check_parts_passes,
}

-- What the private fields of an intent guarantee.
abbrev pub IsConversionIntent : QiConversionIntent → Type 0
IsConversionIntent i =
    IsOf quai i.destination × IsOf qi i.refund × (30 ≤ i.slippage.value) × (i.slippage.value ≤ 9000)

qi_from_slice_lem : (a : LedgerAddress) → IsOf qi a → qi_from_slice a.address.bytes ≡ ok a
unfolding qi_from_slice
qi_from_slice_lem a (size, place) = (slice_iff qi a.address.bytes a).1 (size, refl, place)

new_slippage_lem :
    (s : ConversionSlippage) → 30 ≤ s.value → s.value ≤ 9000 → new_slippage s.value ≡ ok s
unfolding new_slippage
new_slippage_lem s low high =
    (reject_if_iff _ _ (ok (record { value = s.value })) s).1
      ((within_iff s.value).1 (low, high), refl)

slippage_bytes :
    (s : ConversionSlippage) (rest : List ℕ)
    → s.value ≤ 9000
    → from_be_bytes (take 2 (to_be_bytes 2 s.value ++ rest)) ≡ s.value
slippage_bytes s rest high =
    ap from_be_bytes (take-append 2 (to_be_bytes 2 s.value) rest (length-to_be_bytes 2 s.value))
    ∙ from_be_bytes-to_be_bytes 2 s.value (omega arith)

refund_bytes :
    (s : ConversionSlippage) (rest : List ℕ) → drop 2 (to_be_bytes 2 s.value ++ rest) ≡ rest
refund_bytes s rest = drop-append 2 (to_be_bytes 2 s.value) rest (length-to_be_bytes 2 s.value)

module _ {K : Type 0} (key_address : K → Address) (chain_id : ℕ) (inputs : List (QiInput K))
    (change : List QiOutput) where
  conversion_read :
      (d : Denomination) (ds : List Denomination) (intent : QiConversionIntent) (z : Zone)
      → IsConversionIntent intent
      → let t = conversion_transaction chain_id inputs (d ∷ ds) change intent in
        validate_for key_address conversion t ≡ ok z
        → conversion_from_transaction key_address t
          ≡ ok (record { transaction = t; intent = intent })
  unfolding conversion_from_transaction conversion_transaction
  conversion_read d ds intent z (to, back_to, low, high) e =
      let t = conversion_transaction chain_id inputs (d ∷ ds) change intent in
      let s = intent.slippage in
      let built : QiConversionTransaction K = record { transaction = t; intent = intent } in
      (>>=_iff (validate_for key_address conversion t) _ built).1 (
        z,
        e,
        (ok_or_iff (first_quai t.outputs) invalid_scope _ built).1 (
          intent.destination,
          first_quai_lem intent.destination d ds change to,
          (>>=_iff (qi_from_slice (drop 2 t.payload)) _ built).1 (
            intent.refund,
            ap qi_from_slice (refund_bytes s intent.refund.address.bytes)
                ∙ qi_from_slice_lem intent.refund back_to,
            (>>=_iff (new_slippage (from_be_bytes (take 2 t.payload))) _ built).1 (
              s,
              ap new_slippage (slippage_bytes s intent.refund.address.bytes high)
                  ∙ new_slippage_lem s low high,
              refl,
            ),
          ),
        ),
      )

  conversion_validated :
      (t : QiTransaction K) (out : QiConversionTransaction K)
      → conversion_from_transaction key_address t ≡ ok out
      → (z : Zone) × (validate_for key_address conversion t ≡ ok z)
  unfolding conversion_from_transaction
  conversion_validated t out h =
      let (z, e, _) = (>>=_iff (validate_for key_address conversion t) _ out).0 h in (z, e)

-- A conversion is built exactly when it converts something, its change is on the Qi ledger and the
-- transaction is a valid conversion; it then carries the intent and the payload it was given.
pub new_conversion_iff :
    {K : Type 0} (key_address : K → Address) (chain_id : ℕ) (inputs : List (QiInput K))
    (converted : List Denomination) (change : List QiOutput) (intent : QiConversionIntent)
    (out : QiConversionTransaction K)
    → IsConversionIntent intent
    → (new_conversion key_address chain_id inputs converted change intent ≡ ok out) ↔ (
        (converted ≢ [])
        × All (λ o. ledger o.address ≡ qi) change
        × ((z : Zone) × IsValid key_address conversion
              (conversion_transaction chain_id inputs converted change intent)
              z)
        × (out ≡ record {
          transaction = conversion_transaction chain_id inputs converted change intent;
          intent = intent;
        }))
unfolding new_conversion
new_conversion_iff key_address chain_id inputs [] change intent out ok_intent =
    (λ h. cc, λ h. absurd (h.0 refl))
new_conversion_iff {K = K} key_address chain_id inputs (d ∷ ds) change intent out ok_intent =
    (forth, back)
  where
    t : QiTransaction K
    t = conversion_transaction chain_id inputs (d ∷ ds) change intent

    built : QiConversionTransaction K
    built = record { transaction = t; intent = intent }

    why : TransactionError
    why = invalid_field "missing conversion output"

    forth :
        new_conversion key_address chain_id inputs (d ∷ ds) change intent ≡ ok out
        → ((d ∷ ds) ≢ [])
          × All (λ o. ledger o.address ≡ qi) change
          × ((z : Zone) × IsValid key_address conversion t z)
          × (out ≡ built)
    forth h =
        let (_, parts, h1) =
          (>>=_iff (check_parts (length inputs) (d ∷ ds) change why) _ out).0 h in
        let (some_of, plain) = check_parts-ok (length inputs) (d ∷ ds) change why parts in
        let (z, e) = conversion_validated key_address chain_id inputs change t out h1 in
        (
          some_of,
          plain,
          (z, (validate_for_iff key_address conversion t z).0 e),
          ok-injective (
              sym h1
              ∙ conversion_read key_address chain_id inputs change d ds intent z ok_intent e),
        )

    count :
        (z : Zone)
        → IsValid key_address conversion t z
        → length inputs * 3 + (length (d ∷ ds) + length change) + 3 ≤ 16384
    count z v =
        unfold conversion_transaction in
        omega (arith, v.messages, length-outputs_to intent.destination.address (d ∷ ds) change)

    back :
        ((d ∷ ds) ≢ [])
          × All (λ o. ledger o.address ≡ qi) change
          × ((z : Zone) × IsValid key_address conversion t z)
          × (out ≡ built)
        → new_conversion key_address chain_id inputs (d ∷ ds) change intent ≡ ok out
    back (some_of, plain, (z, v), same) =
        (>>=_iff (check_parts (length inputs) (d ∷ ds) change why) _ out).1 (
          tt,
          check_parts_passes (length inputs) (d ∷ ds) change why some_of plain (count z v),
          conversion_read key_address chain_id inputs change d ds intent z ok_intent
                ((validate_for_iff key_address conversion t z).1 v)
              ∙ ap ok (sym same),
        )
