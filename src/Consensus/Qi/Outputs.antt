-- ===== src/Consensus/Qi/Outputs.antt =====
-- The loop over the outputs accepts exactly one conversion destination and unused Qi addresses.
use quai_rust_sdk.Prelude.{
  ◌≡◌, ◌≢◌, refl, ap, ◌↔◌, Bool, true, false, not, ◌&&◌, ◌||◌, List, [], ◌∷◌, get_or, All, Option,
  none, some, Result, ok, ok-injective, >>=_iff, reject_if->>=_iff, ◌>>=◌, false_iff, or-false,
  not-false,
}
use quai_rust_sdk.Primitives.Hash.{bytes_eq_iff}
use quai_rust_sdk.Primitives.Shard.{Zone, byte, zone_eq}
use quai_rust_sdk.Primitives.Shard.Bytes.{from_byte_iff, zone_eq_iff}
use quai_rust_sdk.Primitives.Address.{Address, Ledger, quai, qi, ledger, zone, address_eq}
use quai_rust_sdk.Consensus.Error.{TransactionError, or_invalid_scope, or_invalid_scope-ok}
use quai_rust_sdk.Consensus.Qi.{
  QiMode, QiOutput, is_ordinary, is_other, contains_address, check_output, check_outputs,
}
use quai_rust_sdk.Consensus.Qi.Valid.{IsDistinct, addresses_of, pick_address}

pub address_eq_iff : (a b : Address) → (address_eq a b ≡ true) ↔ (a ≡ b)
address_eq_iff a b = (
  λ h. cc ((bytes_eq_iff a.bytes b.bytes).0 h),
  λ e. (bytes_eq_iff a.bytes b.bytes).1 (ap (λ (x : Address). x.bytes) e),
)

contains_address-false :
    (seen : List Address) (a : Address) → (contains_address seen a ≡ false) ↔ All (λ s. s ≢ a) seen
unfolding contains_address
contains_address-false [] a = (λ _. tt, λ _. refl)
contains_address-false (s ∷ ss) a =
    let (split, join) = or-false (address_eq s a) (contains_address ss a) in
    let (differs, not_same) = false_iff (address_eq s a) (address_eq_iff s a) in
    let (rest, absent) = contains_address-false ss a in
    (λ h. (differs (split h).0, rest (split h).1), λ h. join (not_same h.0, absent h.1))

-- The zone of an address; a conversion or a wrapping asks for the origin.
abbrev pub IsPlaced : QiMode → Zone → Address → Zone → Type 0
IsPlaced mode origin a z = (byte z ≡ get_or a.bytes 0 0) × (is_ordinary mode ≡ false → z ≡ origin)

abbrev pub IsSame : Option Address → Address → Type 0
IsSame none a = Unit
IsSame (some destination) a = destination ≡ a

-- The account addresses are one, and the mode allows one.
abbrev pub Follows : QiMode → Option Address → List Address → Option Address → Type 0
Follows mode destination [] out = destination ≡ out
Follows mode destination (a ∷ xs) out =
    (is_ordinary mode ≡ false) × IsSame destination a × Follows mode (some a) xs out

abbrev pub AreUnused : List Address → List Address → Type 0
AreUnused seen xs = All (λ a. All (λ s. s ≢ a) seen) xs

is_other_iff :
    (destination : Option Address) (a : Address)
    → (is_other destination a ≡ false) ↔ IsSame destination a
is_other_iff none a = (λ _. tt, λ _. refl)
is_other_iff (some d) a = (
  λ h. (address_eq_iff d a).0 ((not-false (address_eq d a)).0 h),
  λ e. (not-false (address_eq d a)).1 ((address_eq_iff d a).1 e),
)

strays_iff :
    (b : Bool) (z origin : Zone)
    → (not b && not (zone_eq z origin) ≡ false) ↔ (b ≡ false → z ≡ origin)
strays_iff true z origin = (λ _ h. cc, λ _. refl)
strays_iff false z origin = (
  λ h _. (zone_eq_iff z origin).0 ((not-false (zone_eq z origin)).0 h),
  λ h. (not-false (zone_eq z origin)).1 ((zone_eq_iff z origin).1 (h refl)),
)

AreUnused-cons :
    (p : Address) (seen xs : List Address)
    → AreUnused (p ∷ seen) xs ↔ (All (λ q. p ≢ q) xs × AreUnused seen xs)
AreUnused-cons p seen [] = (λ _. (tt, tt), λ _. tt)
AreUnused-cons p seen (a ∷ xs) =
    let (split, join) = AreUnused-cons p seen xs in
    (
      λ h. ((h.0.0, (split h.1).0), (h.0.1, (split h.1).1)),
      λ h. ((h.0.0, h.1.0), join (h.0.1, h.1.1)),
    )

-- What a run of the loop has checked, over the account and the Qi addresses of the outputs.
abbrev pub AreKept :
    QiMode → List Address → Option Address → List Address → List Address → Option Address → Type 0
AreKept mode seen destination accounts owners out =
    Follows mode destination accounts out × AreUnused seen owners × IsDistinct owners

-- One round and the rest, at an output of either ledger.
round_iff :
    (P : Type 0) (l : Ledger) (mode : QiMode) (origin : Zone) (seen : List Address)
    (destination : Option Address) (a : Address) (z : Zone) (accounts owners : List Address)
    (next : List Address → Option Address → Result TransactionError (Option Address))
    (out : Option Address)
    → ((s : List Address) (d : Option Address)
        → (next s d ≡ ok out) ↔ (P × AreKept mode s d accounts owners out))
    → ((check_output mode origin seen destination a z l >>= λ (s, d). next s d) ≡ ok out) ↔ (
        (is_ordinary mode ≡ false → z ≡ origin)
        × P
        × AreKept mode seen destination
            (pick_address l quai a accounts)
            (pick_address l qi a owners)
            out)
unfolding check_output
round_iff P quai mode origin seen destination a z accounts owners next out rest = (forth, back)
  where
    b : Bool
    b = not (zone_eq z origin)

    c : Bool
    c = is_other destination a

    forth :
        (check_output mode origin seen destination a z quai >>= λ (s, d). next s d) ≡ ok out
        → (is_ordinary mode ≡ false → z ≡ origin)
          × P
          × AreKept mode seen destination (a ∷ accounts) owners out
    forth h =
        let (special, h1) = (reject_if->>=_iff (is_ordinary mode) _ _ _ out).0 h in
        let (g, h2) = (reject_if->>=_iff (b || c) _ _ _ out).0 h1 in
        let (here, same) = (or-false b c).0 g in
        let (p, (follows, unused, distinct)) = (rest seen (some a)).0 h2 in
        (
          λ _. (zone_eq_iff z origin).0 ((not-false (zone_eq z origin)).0 here),
          p,
          ((special, (is_other_iff destination a).0 same, follows), unused, distinct),
        )

    back :
        (is_ordinary mode ≡ false → z ≡ origin)
          × P
          × AreKept mode seen destination (a ∷ accounts) owners out
        → (check_output mode origin seen destination a z quai >>= λ (s, d). next s d) ≡ ok out
    back (here, p, ((special, same, follows), unused, distinct)) =
        (reject_if->>=_iff (is_ordinary mode) _ _ _ out).1 (
          special,
          (reject_if->>=_iff (b || c) _ _ _ out).1 (
            (or-false b c).1 (
              (not-false (zone_eq z origin)).1 ((zone_eq_iff z origin).1 (here special)),
              (is_other_iff destination a).1 same,
            ),
            (rest seen (some a)).1 (p, (follows, unused, distinct)),
          ),
        )
round_iff P qi mode origin seen destination a z accounts owners next out rest = (forth, back)
  where
    b : Bool
    b = not (is_ordinary mode) && not (zone_eq z origin)

    forth :
        (check_output mode origin seen destination a z qi >>= λ (s, d). next s d) ≡ ok out
        → (is_ordinary mode ≡ false → z ≡ origin)
          × P
          × AreKept mode seen destination accounts (a ∷ owners) out
    forth h =
        let (here, h1) = (reject_if->>=_iff b _ _ _ out).0 h in
        let (new, h2) = (reject_if->>=_iff (contains_address seen a) _ _ _ out).0 h1 in
        let (p, (follows, unused, distinct)) = (rest (a ∷ seen) destination).0 h2 in
        let (fresh, old) = (AreUnused-cons a seen owners).0 unused in
        (
          (strays_iff (is_ordinary mode) z origin).0 here,
          p,
          (follows, ((contains_address-false seen a).0 new, old), (fresh, distinct)),
        )

    back :
        (is_ordinary mode ≡ false → z ≡ origin)
          × P
          × AreKept mode seen destination accounts (a ∷ owners) out
        → (check_output mode origin seen destination a z qi >>= λ (s, d). next s d) ≡ ok out
    back (here, p, (follows, (new, old), (fresh, distinct))) = (reject_if->>=_iff b _ _ _ out).1 (
      (strays_iff (is_ordinary mode) z origin).1 here,
      (reject_if->>=_iff (contains_address seen a) _ _ _ out).1 (
        (contains_address-false seen a).1 new,
        (rest (a ∷ seen) destination).1
            (p, (follows, (AreUnused-cons a seen owners).1 (fresh, old), distinct)),
      ),
    )

zone_iff : (a : Address) (z : Zone) → (zone a ≡ ok z) ↔ (byte z ≡ get_or a.bytes 0 0)
unfolding zone
zone_iff a z = (from_byte_iff (get_or a.bytes 0 0) z).0

pub check_outputs_iff :
    (mode : QiMode) (origin : Zone) (seen : List Address) (destination : Option Address)
    (os : List QiOutput) (out : Option Address)
    → (check_outputs mode origin seen destination os ≡ ok out) ↔ (
        All (λ o. (z : Zone) × IsPlaced mode origin o.address z) os
        × AreKept mode seen destination (addresses_of quai os) (addresses_of qi os) out)
unfolding check_outputs
check_outputs_iff mode origin seen destination [] out =
    (λ h. (tt, (ok-injective h, tt, tt)), λ h. ap ok h.1.0)
check_outputs_iff mode origin seen destination (o ∷ os) out =
    let a = o.address in
    let next : List Address → Option Address → Result TransactionError (Option Address) =
      λ s d. check_outputs mode origin s d os in
    let body : Zone → Result TransactionError (Option Address) =
      λ z. check_output mode origin seen destination a z (ledger a) >>= λ (s, d). next s d in
    let Placed : Type 0 = All (λ p. (x : Zone) × IsPlaced mode origin p.address x) os in
    let round = λ (z : Zone).
      round_iff Placed (ledger a) mode origin seen destination a z (addresses_of quai os)
        (addresses_of qi os) next out (λ s d. check_outputs_iff mode origin s d os out) in
    (
      λ h.
          let (z, e, h1) = (>>=_iff (or_invalid_scope (zone a)) body out).0 h in
          let (here, placed, kept) = (round z).0 h1 in
          (((z, ((zone_iff a z).0 ((or_invalid_scope-ok _ z).0 e), here)), placed), kept),
      λ (((z, (e, here)), placed), kept).
          (>>=_iff (or_invalid_scope (zone a)) body out).1
            (z, (or_invalid_scope-ok _ z).1 ((zone_iff a z).1 e), (round z).1 (here, placed, kept)),
    )
