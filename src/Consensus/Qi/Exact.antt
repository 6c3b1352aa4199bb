-- ===== src/Consensus/Qi/Exact.antt =====
-- The validator accepts exactly the valid transactions.
use quai_rust_sdk.Prelude.{
  ℕ, zero, suc, ◌≡◌, ◌≢◌, refl, sym, ap, subst, ◌∙◌, ◌↔◌, Bool, true, false, not, ◌&&◌, List, [],
  ◌∷◌, get_or, All, replicate, Option, none, some, ok, ok-injective, >>=_iff, reject_if_iff,
}
use quai_rust_sdk.Primitives.Shard.{Zone, byte, from_byte}
use quai_rust_sdk.Primitives.Shard.Bytes.{from_byte_iff}
use quai_rust_sdk.Primitives.Address.{Address, quai, qi}
use quai_rust_sdk.Consensus.Error.{or_invalid_scope, or_invalid_scope-ok}
use quai_rust_sdk.Consensus.Qi.{
  QiMode, ordinary, conversion, wrapping, QiInput, QiOutput, QiTransaction, is_ordinary, is_none,
  first_hash, check_sizes, check_mode, check_inputs, check_outputs, validate_for,
}
use quai_rust_sdk.Consensus.Qi.Valid.{IsInput, IsFresh, IsValid, AreOutputs, HasZone, addresses_of}
use quai_rust_sdk.Consensus.Qi.Inputs.{owners, AreNew, check_inputs_iff}
use quai_rust_sdk.Consensus.Qi.Outputs.{IsPlaced, Follows, AreUnused, check_outputs_iff}
use quai_rust_sdk.Consensus.Qi.Sizes.{check_sizes_iff, check_mode_iff}

-- The destinations after the first are the first, and it is the answer.
Follows-some :
    (mode : QiMode) (d : Address) (xs : List Address) (out : Option Address)
    → Follows mode (some d) xs out
    → (out ≡ some d) × ((n : ℕ) × (xs ≡ replicate n d))
Follows-some mode d [] out h = (sym h, (zero, refl))
Follows-some mode d (x ∷ xs) out (special, same, rest) =
    let (answer, (n, run)) = Follows-some mode x xs out rest in
    (answer ∙ ap some (sym same), (suc n, cc (same, run)))

Follows-run :
    (mode : QiMode) (d : Address) (n : ℕ)
    → is_ordinary mode ≡ false
    → Follows mode (some d) (replicate n d) (some d)
Follows-run mode d zero h = refl
Follows-run mode d (suc n) h = (h, refl, Follows-run mode d n h)

and_false : (b : Bool) → (b && false) ≡ false
and_false true = refl
and_false false = refl

true≢false : ◌≢◌ {A = Bool} true false
true≢false h = cc

-- What the loop over the outputs and the last check say together of the account addresses and the
-- zones.
abbrev AreTargets : QiMode → Zone → List QiOutput → Type 0
AreTargets mode origin os =
    All (λ o. (z : Zone) × IsPlaced mode origin o.address z) os
    × ((out : Option Address) × Follows mode none (addresses_of quai os) out
        × (not (is_ordinary mode) && is_none out ≡ false))

IsPlaced-iff :
    (mode : QiMode) (origin : Zone) (os : List QiOutput)
    → is_ordinary mode ≡ false
    → All (λ o. (z : Zone) × IsPlaced mode origin o.address z) os
      ↔ All (λ o. byte origin ≡ get_or o.address.bytes 0 0) os
IsPlaced-iff mode origin [] special = (λ _. tt, λ _. tt)
IsPlaced-iff mode origin (o ∷ os) special =
    let (forth, back) = IsPlaced-iff mode origin os special in
    (
      λ ((z, (e, here)), rest). (ap byte (sym (here special)) ∙ e, forth rest),
      λ (e, rest). ((origin, (e, λ _. refl)), back rest),
    )

free_iff :
    (origin : Zone) (os : List QiOutput)
    → All (λ o. (z : Zone) × IsPlaced ordinary origin o.address z) os ↔ All HasZone os
free_iff origin [] = (λ _. tt, λ _. tt)
free_iff origin (o ∷ os) =
    let (forth, back) = free_iff origin os in
    (
      λ ((z, (e, here)), rest). ((z, e), forth rest),
      λ ((z, e), rest). ((z, (e, λ h. cc)), back rest),
    )

run_of :
    (mode : QiMode) (xs : List Address) (out : Option Address)
    → is_ordinary mode ≡ false
    → Follows mode none xs out
    → (not (is_ordinary mode) && is_none out) ≡ false
    → (destination : Address) × (n : ℕ) × (xs ≡ replicate (suc n) destination)
run_of mode [] out special follows present = absurd (true≢false (sym lost ∙ present))
  where
    lost : (not (is_ordinary mode) && is_none out) ≡ true
    lost = rw special (ap is_none (sym follows))
run_of mode (x ∷ xs) out special (_, _, rest) present =
    let (_, (n, e)) = Follows-some mode x xs out rest in (x, n, ap (λ t. x ∷ t) e)

special_iff :
    (mode : QiMode) (origin : Zone) (os : List QiOutput)
    → is_ordinary mode ≡ false
    → AreTargets mode origin os ↔ (
        All (λ o. byte origin ≡ get_or o.address.bytes 0 0) os
        × ((destination : Address) × (n : ℕ) × (addresses_of quai os
              ≡ replicate (suc n) destination)))
special_iff mode origin os special =
    let (here, there) = IsPlaced-iff mode origin os special in
    (
      λ (placed, (out, follows, present)).
          (here placed, run_of mode (addresses_of quai os) out special follows present),
      λ (placed, (d, n, e)). (
        there placed,
        (
          some d,
          subst (λ (xs : List Address). Follows mode none xs (some d)) (sym e)
              (special, tt, Follows-run mode d n special),
          and_false (not (is_ordinary mode)),
        ),
      ),
    )

free_of : (xs : List Address) (out : Option Address) → Follows ordinary none xs out → xs ≡ []
free_of [] out h = refl
free_of (x ∷ xs) out h = cc (h.0)

targets_iff :
    (mode : QiMode) (origin : Zone) (os : List QiOutput)
    → AreTargets mode origin os ↔ AreOutputs mode origin os
targets_iff ordinary origin os =
    let (here, there) = free_iff origin os in
    (
      λ (placed, (out, follows, _)). (here placed, free_of (addresses_of quai os) out follows),
      λ (placed, e). (
        there placed,
        (none, subst (λ (xs : List Address). Follows ordinary none xs none) (sym e) refl, refl),
      ),
    )
targets_iff conversion origin os = special_iff conversion origin os refl
targets_iff wrapping origin os = special_iff wrapping origin os refl

module _ {K : Type 0} (key_address : K → Address) where
  owners_iff :
      (addresses : List Address) (is : List (QiInput K)) (a : Address)
      → All (λ s. s ≢ a) (owners key_address addresses is)
        ↔ (All (λ s. s ≢ a) addresses × IsFresh key_address is a)
  owners_iff addresses [] a = (λ h. (h, tt), λ h. h.0)
  owners_iff addresses (i ∷ is) a =
      let (forth, back) = owners_iff (key_address i.public_key ∷ addresses) is a in
      (λ h. ((forth h).0.1, ((forth h).0.0, (forth h).1)), λ h. back ((h.1.0, h.0), h.1.1))

  unused_iff :
      (is : List (QiInput K)) (xs : List Address)
      → AreUnused (owners key_address [] is) xs ↔ All (IsFresh key_address is) xs
  unused_iff is [] = (λ _. tt, λ _. tt)
  unused_iff is (x ∷ xs) =
      let (forth, back) = unused_iff is xs in
      let (split, join) = owners_iff [] is x in
      (λ h. ((split h.0).1, forth h.1), λ h. (join (tt, h.0), back h.1))

  new_all : (is : List (QiInput K)) → AreNew key_address [] is
  new_all [] = tt
  new_all (i ∷ is) = (tt, new_all is)

  first_lem :
      (origin : Zone) (is : List (QiInput K))
      → is ≢ []
      → All (IsInput key_address origin) is
      → get_or (first_hash is) 2 0 ≡ byte origin
  first_lem origin [] some_inputs h = absurd (some_inputs refl)
  first_lem origin (i ∷ is) some_inputs h = h.0.0

  validate_for_sound :
      (mode : QiMode) (tx : QiTransaction K) (origin : Zone)
      → validate_for key_address mode tx ≡ ok origin
      → IsValid key_address mode tx origin
  unfolding validate_for
  validate_for_sound mode tx origin h =
      let (_, sizes, h1) = (>>=_iff (check_sizes tx) _ origin).0 h in
      let (here, _, h2) =
        (>>=_iff (or_invalid_scope (from_byte (get_or (first_hash tx.inputs) 2 0))) _ origin).0
          h1 in
      let (_, data_ok, h3) =
        (>>=_iff (check_mode mode tx.chain_id tx.payload here) _ origin).0 h2 in
      let (addresses, spent, h4) =
        (>>=_iff (check_inputs key_address here [] [] tx.inputs) _ origin).0 h3 in
      let (out, paid, h5) =
        (>>=_iff (check_outputs mode here addresses none tx.outputs) _ origin).0 h4 in
      let (present, same) = (reject_if_iff _ _ _ origin).0 h5 in
      let (i, o, count, size) = (check_sizes_iff tx).0 sizes in
      let (_, distinct, inputs, owned) =
        (check_inputs_iff key_address here [] [] tx.inputs addresses).0 spent in
      let (placed, (follows, unused, once)) =
        (check_outputs_iff mode here addresses none tx.outputs out).0 paid in
      subst (IsValid key_address mode tx) (ok-injective same) (record {
        some_inputs = i;
        some_outputs = o;
        messages = count;
        size = size;
        mode_data = (check_mode_iff mode tx.chain_id tx.payload here).0 data_ok;
        spends_once = distinct;
        inputs = inputs;
        outputs = (targets_iff mode here tx.outputs).0 (placed, (out, follows, present));
        pays_once = once;
        no_reuse = (unused_iff tx.inputs (addresses_of qi tx.outputs)).0 (
            subst (λ (xs : List Address). AreUnused xs (addresses_of qi tx.outputs)) (sym owned)
              unused);
      })

  validate_for_complete :
      (mode : QiMode) (tx : QiTransaction K) (origin : Zone)
      → IsValid key_address mode tx origin
      → validate_for key_address mode tx ≡ ok origin
  unfolding validate_for
  validate_for_complete mode tx origin v =
      let addresses = owners key_address [] tx.inputs in
      let (placed, (out, follows, present)) = (targets_iff mode origin tx.outputs).1 v.outputs in
      (>>=_iff (check_sizes tx) _ origin).1 (
        tt,
        (check_sizes_iff tx).1 (v.some_inputs, v.some_outputs, v.messages, v.size),
        (>>=_iff (or_invalid_scope (from_byte (get_or (first_hash tx.inputs) 2 0))) _ origin).1 (
          origin,
          (or_invalid_scope-ok _ origin).1 (
              (from_byte_iff (get_or (first_hash tx.inputs) 2 0) origin).0.1
                (sym (first_lem origin tx.inputs v.some_inputs v.inputs))),
          (>>=_iff (check_mode mode tx.chain_id tx.payload origin) _ origin).1 (
            tt,
            (check_mode_iff mode tx.chain_id tx.payload origin).1 v.mode_data,
            (>>=_iff (check_inputs key_address origin [] [] tx.inputs) _ origin).1 (
              addresses,
              (check_inputs_iff key_address origin [] [] tx.inputs addresses).1
                  (new_all tx.inputs, v.spends_once, v.inputs, refl),
              (>>=_iff (check_outputs mode origin addresses none tx.outputs) _ origin).1 (
                out,
                (check_outputs_iff mode origin addresses none tx.outputs out).1 (
                  placed,
                  (
                    follows,
                    (unused_iff tx.inputs (addresses_of qi tx.outputs)).1 v.no_reuse,
                    v.pays_once,
                  ),
                ),
                (reject_if_iff _ _ _ origin).1 (present, refl),
              ),
            ),
          ),
        ),
      )

  -- A transaction passes the validator for a mode, with the origin it answers, exactly when it is
  -- valid for the mode in that zone.
  pub validate_for_iff :
      (mode : QiMode) (tx : QiTransaction K) (origin : Zone)
      → (validate_for key_address mode tx ≡ ok origin) ↔ IsValid key_address mode tx origin
  validate_for_iff mode tx origin =
      (validate_for_sound mode tx origin, validate_for_complete mode tx origin)
