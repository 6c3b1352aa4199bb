-- ===== src/Consensus/Qi/Sizes.antt =====
-- The checks of the sizes and of a mode's data, said as bounds.
use quai_rust_sdk.Prelude.{
  ℕ, ◌+◌, ◌*◌, ◌≤◌, ◌==◌, ◌≡◌, ◌≢◌, refl, sym, ap, ◌∙◌, ◌↔◌, arith, Bool, false, not, ◌&&◌, ◌||◌,
  leb, ltb, List, [], ◌∷◌, length, get_or, some, Result, ok, ok_or_iff, reject_if_passes, subst,
  ◌>>=◌, >>=_iff, reject_if, reject_if_iff, if-ok_iff, false_iff, or-false, not-false, ==_iff,
}
use quai_rust_sdk.Primitives.Bytes.{take, drop, from_be_bytes}
use quai_rust_sdk.Primitives.Shard.{Zone, byte, zone_eq}
use quai_rust_sdk.Primitives.Shard.Bytes.{zone_eq_iff}
use quai_rust_sdk.Primitives.Address.{
  invalid_length, Address, LedgerAddress, Ledger, quai, qi, ledger, try_from, address_from_slice,
}
use quai_rust_sdk.Primitives.Address.Scope.{try_from-ledger_iff}
use quai_rust_sdk.Consensus.Error.{
  TransactionError, too_large, invalid_scope, or_invalid_scope, or_invalid_scope-ok,
}
use quai_rust_sdk.Consensus.Qi.{
  QiMode, ordinary, conversion, wrapping, QiTransaction, max_transaction_messages,
  max_transaction_bytes, count_messages, check_sizes, check_mode, new_slippage, qi_from_slice,
  quai_from_slice,
}
use quai_rust_sdk.Consensus.Qi.Valid.{IsIn, IsModeData}

-- The count overflows a usize only when it is above every bound below.
pub count_messages-some :
    (n m : ℕ) → n * 3 + m + 3 ≤ 16384 → count_messages n m ≡ some (n * 3 + m + 3)
unfolding count_messages
count_messages-some n m h = ground arith

pub count_messages_lem : (n m c : ℕ) → count_messages n m ≡ some c → c ≡ n * 3 + m + 3
unfolding count_messages
count_messages_lem n m c h = ground arith

-- The four bounds pass exactly when the count and the payload are within theirs.
pub bounds_iff :
    (n m c p : ℕ)
    → c ≡ n * 3 + m + 3
    → ((ltb 16384 c || (ltb 65535 n || (ltb 65535 m || ltb 1048576 p))) ≡ false)
      ↔ ((c ≤ 16384) × (p ≤ 1048576))
bounds_iff n m c p e = (λ h. (ground arith, ground arith), λ h. ground arith)

pub length-zero {ℓ} : {A : Type ℓ} (xs : List A) → ((length xs == 0) ≡ false) ↔ (xs ≢ [])
length-zero [] = (λ h. cc, λ h. absurd (h refl))
length-zero (x ∷ xs) = (λ _ e. cc, λ _. ground arith)

pub check_sizes_iff :
    {K : Type 0} (tx : QiTransaction K)
    → (check_sizes tx ≡ ok tt) ↔ (
        (tx.inputs ≢ [])
        × (tx.outputs ≢ [])
        × (length tx.inputs * 3 + length tx.outputs + 3 ≤ max_transaction_messages)
        × (length tx.payload ≤ max_transaction_bytes))
unfolding check_sizes
check_sizes_iff {K = K} tx = (forth, back)
  where
    n : ℕ
    n = length tx.inputs

    m : ℕ
    m = length tx.outputs

    forth :
        check_sizes tx ≡ ok tt
        → (tx.inputs ≢ [])
          × (tx.outputs ≢ [])
          × (n * 3 + m + 3 ≤ max_transaction_messages)
          × (length tx.payload ≤ max_transaction_bytes)
    forth h =
        let (some_of, h1) = (reject_if_iff (n == 0 || m == 0) _ _ tt).0 h in
        let (i, o) = (or-false (n == 0) (m == 0)).0 some_of in
        let (c, e, h2) = (ok_or_iff (count_messages n m) too_large _ tt).0 h1 in
        let (count, size) =
          (bounds_iff n m c (length tx.payload) (count_messages_lem n m c e)).0
            ((reject_if_passes _ too_large).0 h2) in
        (
          (length-zero tx.inputs).0 i,
          (length-zero tx.outputs).0 o,
          subst (λ (t : ℕ). t ≤ max_transaction_messages) (count_messages_lem n m c e) count,
          size,
        )

    back :
        (tx.inputs ≢ [])
          × (tx.outputs ≢ [])
          × (n * 3 + m + 3 ≤ max_transaction_messages)
          × (length tx.payload ≤ max_transaction_bytes)
        → check_sizes tx ≡ ok tt
    back (i, o, c, p) = (reject_if_iff (n == 0 || m == 0) _ _ tt).1 (
      (or-false (n == 0) (m == 0)).1 ((length-zero tx.inputs).1 i, (length-zero tx.outputs).1 o),
      (ok_or_iff (count_messages n m) too_large _ tt).1 (
        n * 3 + m + 3,
        count_messages-some n m c,
        (reject_if_passes _ too_large).1
            ((bounds_iff n m (n * 3 + m + 3) (length tx.payload) refl).1 (c, p)),
      ),
    )

address_from_slice_iff :
    (slice : List ℕ) (a : Address)
    → (address_from_slice slice ≡ ok a) ↔ ((length slice ≡ 20) × (a ≡ record { bytes = slice }))
unfolding address_from_slice
address_from_slice_iff slice a =
    let accepted = if-ok_iff (length slice == 20) invalid_length (record { bytes = slice }) a in
    (
      λ h. ((==_iff (length slice) 20).0 (accepted.0 h).0, sym (accepted.0 h).1),
      λ (size, same). accepted.1 ((==_iff (length slice) 20).1 size, sym same),
    )

pub slice_iff :
    (expected : Ledger) (slice : List ℕ) (a : LedgerAddress)
    → ((or_invalid_scope (address_from_slice slice) >>= λ x. or_invalid_scope (try_from expected x))
        ≡ ok a)
      ↔ ((length slice ≡ 20)
          × (a.address ≡ record { bytes = slice })
          × IsIn expected a.zone (record { bytes = slice }))
unfolding address_from_slice
slice_iff expected slice a =
    let x : Address = record { bytes = slice } in
    (
      λ h.
          let (y, e, h1) = (>>=_iff (or_invalid_scope (address_from_slice slice)) _ a).0 h in
          let (size, same) = (address_from_slice_iff slice y).0 ((or_invalid_scope-ok _ y).0 e) in
          let (z, b, l) = (try_from-ledger_iff expected y a).0 ((or_invalid_scope-ok _ a).0 h1) in
          (
            size,
            z ∙ same,
            (ap ledger (sym same) ∙ l, b ∙ ap (λ (t : Address). get_or t.bytes 0 0) same),
          ),
      λ (size, same, (l, b)). (>>=_iff (or_invalid_scope (address_from_slice slice)) _ a).1 (
        x,
        (or_invalid_scope-ok _ x).1 ((address_from_slice_iff slice x).1 (size, refl)),
        (or_invalid_scope-ok _ a).1 ((try_from-ledger_iff expected x a).1 (same, b, l)),
      ),
    )

-- The slice is an address of the ledger in the origin, behind one more test.
owner_iff :
    (expected : Ledger) (slice : List ℕ) (c : Bool) (origin : Zone)
    → (((or_invalid_scope (address_from_slice slice) >>= λ x.
            or_invalid_scope (try_from expected x))
          >>= λ owner. reject_if (c || not (zone_eq owner.zone origin)) invalid_scope)
        ≡ ok tt)
      ↔ ((c ≡ false) × (length slice ≡ 20) × IsIn expected origin (record { bytes = slice }))
owner_iff expected slice c origin = (forth, back)
  where
    check : LedgerAddress → Result TransactionError (Unit {0})
    check owner = reject_if (c || not (zone_eq owner.zone origin)) invalid_scope

    read : Result TransactionError LedgerAddress
    read =
        or_invalid_scope (address_from_slice slice) >>= λ x. or_invalid_scope (try_from expected x)

    forth :
        (read >>= check) ≡ ok tt
        → (c ≡ false) × (length slice ≡ 20) × IsIn expected origin (record { bytes = slice })
    forth h =
        let (owner, e, h1) = (>>=_iff read check tt).0 h in
        let (size, same, (l, b)) = (slice_iff expected slice owner).0 e in
        let (clear, here) =
          (or-false c (not (zone_eq owner.zone origin))).0
            ((reject_if_passes (c || not (zone_eq owner.zone origin)) invalid_scope).0 h1) in
        let placed = (zone_eq_iff owner.zone origin).0 ((not-false _).0 here) in
        (clear, size, (l, ap byte (sym placed) ∙ b))

    back :
        (c ≡ false) × (length slice ≡ 20) × IsIn expected origin (record { bytes = slice })
        → (read >>= check) ≡ ok tt
    back (clear, size, (l, b)) =
        let owner : LedgerAddress = record { address = record { bytes = slice }; zone = origin } in
        (>>=_iff read check tt).1 (
          owner,
          (slice_iff expected slice owner).1 (size, refl, (l, b)),
          (reject_if_passes (c || not (zone_eq owner.zone origin)) invalid_scope).1 (
              (or-false c (not (zone_eq origin origin))).1
                (clear, (not-false _).1 ((zone_eq_iff origin origin).1 refl))),
        )

length-drop_two : (xs : List ℕ) → length xs ≡ 22 → length (drop 2 xs) ≡ 20
length-drop_two [] h = absurd (omega arith)
length-drop_two (x ∷ []) h = absurd (omega arith)
length-drop_two (x ∷ y ∷ xs) h = omega arith

pub within_iff : (n : ℕ) → (not (leb 30 n && leb n 9000) ≡ false) ↔ ((30 ≤ n) × (n ≤ 9000))
within_iff n = (λ h. (ground arith, ground arith), λ h. ground arith)

pub check_mode_iff :
    (mode : QiMode) (chain_id : ℕ) (payload : List ℕ) (origin : Zone)
    → (check_mode mode chain_id payload origin ≡ ok tt) ↔ IsModeData mode chain_id payload origin
unfolding check_mode qi_from_slice quai_from_slice new_slippage
check_mode_iff ordinary chain_id payload origin = (λ _. tt, λ _. refl)
check_mode_iff wrapping chain_id payload origin =
    let nonzero = false_iff (chain_id == 0) (==_iff chain_id 0) in
    let owner = owner_iff quai payload (chain_id == 0) origin in
    (
      λ h. let (c, size, place) = owner.0 h in (nonzero.0 c, size, place),
      λ (c, size, place). owner.1 (nonzero.1 c, size, place),
    )
check_mode_iff conversion chain_id payload origin = (forth, back)
  where
    b : Bool
    b = chain_id == 0

    c : Bool
    c = not (length payload == 22)

    d : Bool
    d = not (leb 30 (from_be_bytes (take 2 payload)) && leb (from_be_bytes (take 2 payload)) 9000)

    forth :
        check_mode conversion chain_id payload origin ≡ ok tt
        → IsModeData conversion chain_id payload origin
    forth h =
        let (g, h1) = (reject_if_iff (b || c) _ _ tt).0 h in
        let (nonzero, whole) = (or-false b c).0 g in
        let (s, e, h2) = (>>=_iff (new_slippage (from_be_bytes (take 2 payload))) _ tt).0 h1 in
        let inside = ((reject_if_iff d _ _ s).0 e).0 in
        let (_, size, place) = (owner_iff qi (drop 2 payload) false origin).0 h2 in
        (
          (false_iff b (==_iff chain_id 0)).0 nonzero,
          (==_iff (length payload) 22).0 ((not-false _).0 whole),
          ((within_iff (from_be_bytes (take 2 payload))).0 inside).0,
          ((within_iff (from_be_bytes (take 2 payload))).0 inside).1,
          place,
        )

    back :
        IsModeData conversion chain_id payload origin
        → check_mode conversion chain_id payload origin ≡ ok tt
    back (nonzero, whole, low, high, place) =
        let n = from_be_bytes (take 2 payload) in
        (reject_if_iff (b || c) _ _ tt).1 (
          (or-false b c).1 (
            (false_iff b (==_iff chain_id 0)).1 nonzero,
            (not-false _).1 ((==_iff (length payload) 22).1 whole),
          ),
          (>>=_iff (new_slippage n) _ tt).1 (
            record { value = n },
            (reject_if_iff d _ _ (record { value = n })).1 ((within_iff n).1 (low, high), refl),
            (owner_iff qi (drop 2 payload) false origin).1
                (refl, length-drop_two payload whole, place),
          ),
        )
