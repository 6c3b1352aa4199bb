-- ===== src/Consensus/Qi/Inputs.antt =====
-- The loop over the inputs accepts exactly distinct outpoints of the zone.
use quai_rust_sdk.Prelude.{
  ℕ, ◌==◌, ◌≡◌, ◌≢◌, refl, sym, ap, ◌∙◌, ◌↔◌, Bool, false, not, ◌||◌, List, [], ◌∷◌, get_or, All,
  ok, ok-injective, false_iff, or-false, not-false, ==_iff, >>=_iff, reject_if_iff,
}
use quai_rust_sdk.Primitives.Hash.{bytes_eq, bytes_eq_iff, zero_hash}
use quai_rust_sdk.Primitives.Shard.{Zone, byte, zone_eq}
use quai_rust_sdk.Primitives.Address.{Address, LedgerAddress, qi, try_from}
use quai_rust_sdk.Primitives.Address.Scope.{try_from-ledger_iff}
use quai_rust_sdk.Primitives.Shard.Bytes.{zone_eq_iff}
use quai_rust_sdk.Consensus.Error.{or_invalid_scope, or_invalid_scope-ok}
use quai_rust_sdk.Consensus.OutPoints.{OutPoint, contains, contains-false_iff}
use quai_rust_sdk.Consensus.Qi.{QiInput, check_inputs}
use quai_rust_sdk.Consensus.Qi.Valid.{IsDistinct, IsInput, points}

module _ {K : Type 0} (key_address : K → Address) where
  -- The addresses that the loop has collected at its end.
  abbrev pub owners : List Address → List (QiInput K) → List Address
  owners addresses [] = addresses
  owners addresses (i ∷ is) = owners (key_address i.public_key ∷ addresses) is

  -- The outpoints are new to `seen`.
  abbrev pub AreNew : List OutPoint → List (QiInput K) → Type 0
  AreNew seen is = All (λ i. All (λ s. s ≢ i.previous_output) seen) is

  AreNew-cons :
      (p : OutPoint) (seen : List OutPoint) (is : List (QiInput K))
      → AreNew (p ∷ seen) is ↔ (All (λ q. p ≢ q) (points key_address is) × AreNew seen is)
  AreNew-cons p seen [] = (λ _. (tt, tt), λ _. tt)
  AreNew-cons p seen (i ∷ is) =
      let (split, join) = AreNew-cons p seen is in
      (
        λ h. ((h.0.0, (split h.1).0), (h.0.1, (split h.1).1)),
        λ h. ((h.0.0, h.1.0), join (h.0.1, h.1.1)),
      )

  -- The guard on the hash and the owner's zone.
  abbrev is_foreign : Zone → QiInput K → LedgerAddress → Bool
  is_foreign origin i owner =
      not (get_or i.previous_output.transaction_hash 2 0 == byte origin)
      || (bytes_eq i.previous_output.transaction_hash zero_hash || not (zone_eq owner.zone origin))

  guard_iff :
      (origin : Zone) (i : QiInput K) (owner : LedgerAddress)
      → (is_foreign origin i owner ≡ false) ↔ (
          (get_or i.previous_output.transaction_hash 2 0 ≡ byte origin)
          × (i.previous_output.transaction_hash ≢ zero_hash)
          × (owner.zone ≡ origin))
  guard_iff origin i owner =
      let hash = i.previous_output.transaction_hash in
      let b = not (get_or hash 2 0 == byte origin) in
      let c = bytes_eq hash zero_hash in
      let d = not (zone_eq owner.zone origin) in
      let nonzero = false_iff c (bytes_eq_iff hash zero_hash) in
      (
        λ h. (
          (==_iff (get_or hash 2 0) (byte origin)).0
              ((not-false _).0 ((or-false b (c || d)).0 h).0),
          nonzero.0 ((or-false c d).0 ((or-false b (c || d)).0 h).1).0,
          (zone_eq_iff owner.zone origin).0
              ((not-false _).0 ((or-false c d).0 ((or-false b (c || d)).0 h).1).1),
        ),
        λ h. (or-false b (c || d)).1 (
          (not-false _).1 ((==_iff (get_or hash 2 0) (byte origin)).1 h.0),
          (or-false c d).1 (nonzero.1 h.1, (not-false _).1 ((zone_eq_iff owner.zone origin).1 h.2)),
        ),
      )

  -- One input passes its three checks exactly when it is a new one of the zone.
  IsInput-iff :
      (origin : Zone) (seen : List OutPoint) (i : QiInput K)
      → ((contains seen i.previous_output ≡ false)
          × ((owner : LedgerAddress) × (try_from qi (key_address i.public_key) ≡ ok owner)
              × (is_foreign origin i owner ≡ false)))
        ↔ (All (λ s. s ≢ i.previous_output) seen × IsInput key_address origin i)
  IsInput-iff origin seen i = (forth, back)
    where
      hash : List ℕ
      hash = i.previous_output.transaction_hash

      a : Address
      a = key_address i.public_key

      forth :
          (contains seen i.previous_output ≡ false)
            × ((owner : LedgerAddress) × (try_from qi a ≡ ok owner)
                × (is_foreign origin i owner ≡ false))
          → All (λ s. s ≢ i.previous_output) seen × IsInput key_address origin i
      forth (new, (owner, e, g)) =
          let (same, z, l) = (try_from-ledger_iff qi a owner).0 e in
          let (n, h, o) = (guard_iff origin i owner).0 g in
          ((contains-false_iff seen i.previous_output).0 new, (n, h, (l, ap byte (sym o) ∙ z)))

      back :
          All (λ s. s ≢ i.previous_output) seen × IsInput key_address origin i
          → (contains seen i.previous_output ≡ false)
            × ((owner : LedgerAddress) × (try_from qi a ≡ ok owner)
                × (is_foreign origin i owner ≡ false))
      back (new, (n, h, (l, z))) =
          let owner : LedgerAddress = record { address = a; zone = origin } in
          (
            (contains-false_iff seen i.previous_output).1 new,
            (
              owner,
              (try_from-ledger_iff qi a owner).1 (refl, z, l),
              (guard_iff origin i owner).1 (n, h, refl),
            ),
          )

  abbrev pub IsAccepted :
      Zone → List OutPoint → List Address → List (QiInput K) → List Address → Type 0
  IsAccepted origin seen addresses is out =
      AreNew seen is
      × IsDistinct (points key_address is)
      × All (IsInput key_address origin) is
      × (owners addresses is ≡ out)

  check_inputs-cons :
      (origin : Zone) (seen : List OutPoint) (addresses : List Address) (i : QiInput K)
      (is : List (QiInput K)) (out : List Address)
      → ((a : Address)
          → (check_inputs key_address origin (i.previous_output ∷ seen) (a ∷ addresses) is ≡ ok out)
            ↔ IsAccepted origin (i.previous_output ∷ seen) (a ∷ addresses) is out)
      → (check_inputs key_address origin seen addresses (i ∷ is) ≡ ok out)
        ↔ IsAccepted origin seen addresses (i ∷ is) out
  unfolding check_inputs
  check_inputs-cons origin seen addresses i is out rest = (forth, back)
    where
      p : OutPoint
      p = i.previous_output

      forth :
          check_inputs key_address origin seen addresses (i ∷ is) ≡ ok out
          → IsAccepted origin seen addresses (i ∷ is) out
      forth h =
          let (new, h1) = (reject_if_iff _ _ _ out).0 h in
          let (owner, e, h2) =
            (>>=_iff (or_invalid_scope (try_from qi (key_address i.public_key))) _ out).0 h1 in
          let (g, h3) = (reject_if_iff _ _ _ out).0 h2 in
          let (unseen, valid) =
            (IsInput-iff origin seen i).0 (new, (owner, (or_invalid_scope-ok _ owner).0 e, g)) in
          let (news, distinct, valids, same) = (rest owner.address).0 h3 in
          let (fresh, old) = (AreNew-cons p seen is).0 news in
          let kept =
            ((try_from-ledger_iff qi (key_address i.public_key) owner).0
              ((or_invalid_scope-ok _ owner).0 e)).0 in
          (
            (unseen, old),
            (fresh, distinct),
            (valid, valids),
            ap (λ (a : Address). owners (a ∷ addresses) is) (sym kept) ∙ same,
          )

      back :
          IsAccepted origin seen addresses (i ∷ is) out
          → check_inputs key_address origin seen addresses (i ∷ is) ≡ ok out
      back ((unseen, old), (fresh, distinct), (valid, valids), same) =
          let (new, (owner, e, g)) = (IsInput-iff origin seen i).1 (unseen, valid) in
          let kept = ((try_from-ledger_iff qi (key_address i.public_key) owner).0 e).0 in
          (reject_if_iff _ _ _ out).1 (
            new,
            (>>=_iff (or_invalid_scope (try_from qi (key_address i.public_key))) _ out).1 (
              owner,
              (or_invalid_scope-ok _ owner).1 e,
              (reject_if_iff _ _ _ out).1 (
                g,
                (rest owner.address).1 (
                  (AreNew-cons p seen is).1 (fresh, old),
                  distinct,
                  valids,
                  ap (λ (a : Address). owners (a ∷ addresses) is) kept ∙ same,
                ),
              ),
            ),
          )

  pub check_inputs_iff :
      (origin : Zone) (seen : List OutPoint) (addresses : List Address) (is : List (QiInput K))
      (out : List Address)
      → (check_inputs key_address origin seen addresses is ≡ ok out)
        ↔ IsAccepted origin seen addresses is out
  unfolding check_inputs
  check_inputs_iff origin seen addresses [] out =
      (λ h. (tt, tt, tt, ok-injective h), λ h. ap ok h.3)
  check_inputs_iff origin seen addresses (i ∷ is) out =
      check_inputs-cons origin seen addresses i is out
        (λ a. check_inputs_iff origin (i.previous_output ∷ seen) (a ∷ addresses) is out)
