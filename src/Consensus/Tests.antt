-- ===== src/Consensus/Tests.antt =====
-- Validation and envelopes at concrete transactions. A key stands for its own address.
mod Walks
use quai_rust_sdk.Prelude.{ℕ, ◌≡◌, ◌≢◌, refl, arith, All, List, [], ◌∷◌, replicate, ok, err}
use quai_rust_sdk.Primitives.Shard.{Zone, cyprus2, byte}
use quai_rust_sdk.Primitives.Address.{Address, LedgerAddress, qi, ledger}
use quai_rust_sdk.Consensus.Error.{invalid_field}
use quai_rust_sdk.Consensus.Denomination.{Denomination}
use quai_rust_sdk.Consensus.Qi.{
  ordinary, conversion, wrapping, QiInput, QiOutput, QiTransaction, validate_for,
}
use quai_rust_sdk.Consensus.Qi.Valid.{IsValid}
use quai_rust_sdk.Consensus.Qi.Exact.{validate_for_iff}
use quai_rust_sdk.Consensus.Envelopes.{
  QiConversionIntent, QiConversionTransaction, QiWrappingIntent, QiWrappingTransaction,
  conversion_transaction, new_conversion, wrapping_transaction, new_wrapping,
}
use quai_rust_sdk.Consensus.Envelopes.Conversion.{IsConversionIntent, new_conversion_iff}
use quai_rust_sdk.Consensus.Envelopes.Wrapping.{IsWrappingIntent, new_wrapping_iff}

abbrev own_address : Address → Address
own_address a = a

-- Addresses of the second zone of Cyprus.
abbrev qi_address : ℕ → Address
qi_address n = record { bytes = 1 ∷ 128 ∷ n ∷ replicate 17 0 }

abbrev quai_address : ℕ → Address
quai_address n = record { bytes = 1 ∷ 0 ∷ n ∷ replicate 17 0 }

abbrev input : ℕ → QiInput Address
input n = record {
  previous_output = record { transaction_hash = 7 ∷ n ∷ 1 ∷ replicate 29 0; index = 0 };
  public_key = qi_address n;
}

abbrev paid : Address → ℕ → QiOutput
paid a d = record { address = a; denomination = record { index = d } }

abbrev transfer : QiTransaction Address
transfer = record {
  chain_id = 9;
  inputs = input 1 ∷ input 2 ∷ [];
  outputs = paid (qi_address 3) 2 ∷ paid (qi_address 4) 2 ∷ [];
  payload = [];
}

transfer_passes : validate_for own_address ordinary transfer ≡ ok cyprus2
unfolding validate_for
transfer_passes = refl

-- An output to the owner of an input is refused.
reuse_fails :
    validate_for own_address ordinary (record transfer { outputs = paid (qi_address 1) 2 ∷ [] })
    ≡ err (invalid_field "reused output address")
unfolding validate_for
reuse_fails = refl

validate_for_iff_example : IsValid own_address ordinary transfer cyprus2
validate_for_iff_example =
    (validate_for_iff own_address ordinary transfer cyprus2).0 transfer_passes

abbrev quai_owner : ℕ → LedgerAddress
quai_owner n = record { address = quai_address n; zone = cyprus2 }

abbrev qi_owner : ℕ → LedgerAddress
qi_owner n = record { address = qi_address n; zone = cyprus2 }

abbrev intent : QiConversionIntent
intent = record {
  destination = quai_owner 5;
  refund = qi_owner 6;
  slippage = record { value = 300 };
}

abbrev five : Denomination
five = record { index = 1 }

abbrev change : List QiOutput
change = paid (qi_address 3) 2 ∷ []

abbrev built : QiConversionTransaction Address
unfolding conversion_transaction
built = record {
  transaction = conversion_transaction 9 (input 1 ∷ []) (five ∷ five ∷ []) change intent;
  intent = intent;
}

conversion_builds :
    new_conversion own_address 9 (input 1 ∷ []) (five ∷ five ∷ []) change intent ≡ ok built
unfolding new_conversion built
conversion_builds = refl

intent-IsConversionIntent : IsConversionIntent intent
unfolding ledger byte
intent-IsConversionIntent = ((refl, (refl, refl)), (refl, (refl, refl)), omega arith, omega arith)

new_conversion_iff_example :
    ((five ∷ five ∷ []) ≢ [])
    × All (λ o. ledger o.address ≡ qi) change
    × ((z : Zone) × IsValid own_address conversion built.transaction z)
    × (built ≡ built)
unfolding built
new_conversion_iff_example =
    (new_conversion_iff own_address 9 (input 1 ∷ []) (five ∷ five ∷ []) change intent built
        intent-IsConversionIntent).0
      conversion_builds

abbrev wrap_intent : QiWrappingIntent
wrap_intent = record { destination = quai_owner 5; owner_contract = quai_owner 8 }

abbrev wrapped : QiWrappingTransaction Address
unfolding wrapping_transaction
wrapped = record {
  transaction = wrapping_transaction 9 (input 1 ∷ []) (five ∷ []) change wrap_intent;
  intent = wrap_intent;
}

wrapping_builds :
    new_wrapping own_address 9 (input 1 ∷ []) (five ∷ []) change wrap_intent ≡ ok wrapped
unfolding new_wrapping wrapped
wrapping_builds = refl

wrap_intent-IsWrappingIntent : IsWrappingIntent wrap_intent
unfolding ledger byte
wrap_intent-IsWrappingIntent = ((refl, (refl, refl)), (refl, (refl, refl)))

new_wrapping_iff_example :
    ((five ∷ []) ≢ [])
    × All (λ o. ledger o.address ≡ qi) change
    × ((z : Zone) × IsValid own_address wrapping wrapped.transaction z)
    × (wrapped ≡ wrapped)
unfolding wrapped
new_wrapping_iff_example =
    (new_wrapping_iff own_address 9 (input 1 ∷ []) (five ∷ []) change wrap_intent wrapped
        wrap_intent-IsWrappingIntent).0
      wrapping_builds
