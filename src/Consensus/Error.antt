-- ===== src/Consensus/Error.antt =====
-- The errors of the consensus crate (crates/quai-consensus/src/lib.rs).
use Prim.Native.String.{String}
use quai_rust_sdk.Prelude.{◌≡◌, ◌↔◌, ap, ok-injective, Result, ok, err}

pub data TransactionError : Type 0 where
  too_large invalid_encoding : TransactionError
  invalid_field : String → TransactionError
  wrong_type invalid_scope invalid_signature multi_input_signing_unavailable : TransactionError

-- `.map_err(|_| TransactionError::InvalidScope)?`
abbrev pub or_invalid_scope {ℓ κ} :
    {E : Type ℓ} {A : Type κ} → Result E A → Result TransactionError A
or_invalid_scope (ok a) = ok a
or_invalid_scope (err _) = err invalid_scope

pub or_invalid_scope-ok {ℓ κ} :
    {E : Type ℓ} {A : Type κ} (r : Result E A) (a : A) → (or_invalid_scope r ≡ ok a) ↔ (r ≡ ok a)
or_invalid_scope-ok (ok b) a = (λ h. ap ok (ok-injective h), λ h. ap ok (ok-injective h))
or_invalid_scope-ok (err e) a = (λ h. cc, λ h. cc)
