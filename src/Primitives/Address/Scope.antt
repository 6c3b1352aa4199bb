-- ===== src/Primitives/Address/Scope.antt =====
-- What a ledger-specific address guarantees.
use Prim.Native.Nat.{bit_and}
use quai_rust_sdk.Prelude.{
  ◌≡◌, refl, ◌↔◌, ℕ, ◌<◌, ◌≤◌, ◌==◌, ltb, leb, Bool-cases, inl, inr, all_below, all_below_sound,
  arith, Bool, true, false, if◌then◌else◌, Result, ok, err, get_or, ok-injective, sym, ap, ◌∙◌,
}
use quai_rust_sdk.Primitives.Shard.{Zone, ShardError, byte, from_byte}
use quai_rust_sdk.Primitives.Shard.Bytes.{from_byte_iff}
use quai_rust_sdk.Primitives.Address.{
  Ledger, quai, qi, Address, LedgerAddress, ledger, ledger_eq, with_zone, try_from, AddressError,
  wrong_ledger,
}

ledger_eq_iff : (a b : Ledger) → (ledger_eq a b ≡ true) ↔ (a ≡ b)
ledger_eq_iff quai quai = (λ _. refl, λ _. refl)
ledger_eq_iff qi qi = (λ _. refl, λ _. refl)
ledger_eq_iff quai qi = (λ h. cc, λ h. cc)
ledger_eq_iff qi quai = (λ h. cc, λ h. cc)

accepted_lem :
    (e : AddressError) (p q : LedgerAddress) (b : Bool)
    → ◌≡◌ {A = Result AddressError LedgerAddress} (if b then ok p else err e) (ok q)
    → (b ≡ true) × (p ≡ q)
accepted_lem e p q true h = (refl, ok-injective h)
accepted_lem e p q false h = cc

with_zone-ok :
    (expected : Ledger) (a : Address) (q : LedgerAddress) (r : Result ShardError Zone)
    → with_zone expected a r ≡ ok q
    → (q.address ≡ a) × (r ≡ ok q.zone) × (ledger a ≡ expected)
unfolding with_zone
with_zone-ok expected a q (err e) h = cc
with_zone-ok expected a q (ok z) h =
    let (same, p) =
      accepted_lem (wrong_ledger expected (ledger a)) (record { address = a; zone = z }) q
        (ledger_eq (ledger a) expected) h in
    (
      sym (ap (λ (x : LedgerAddress). x.address) p),
      ap (λ (x : LedgerAddress). ok x.zone) p,
      (ledger_eq_iff (ledger a) expected).0 same,
    )

with_zone-accepts :
    (expected : Ledger) (a : Address) (z : Zone)
    → ledger_eq (ledger a) expected ≡ true
    → with_zone expected a (ok z) ≡ ok (record { address = a; zone = z })
unfolding with_zone
with_zone-accepts expected a z h = rw h

try_from_lem :
    (expected : Ledger) (a : Address)
    → try_from expected a ≡ with_zone expected a (from_byte (get_or a.bytes 0 0))
unfolding try_from
try_from_lem expected a = refl

-- A conversion is its two tests.
pub try_from-ledger_iff :
    (expected : Ledger) (a : Address) (q : LedgerAddress)
    → (try_from expected a ≡ ok q)
      ↔ ((q.address ≡ a) × (byte q.zone ≡ get_or a.bytes 0 0) × (ledger a ≡ expected))
try_from-ledger_iff expected a q = (forth, back)
  where
    forth :
        try_from expected a ≡ ok q
        → (q.address ≡ a) × (byte q.zone ≡ get_or a.bytes 0 0) × (ledger a ≡ expected)
    forth h =
        let (address, z, l) =
          with_zone-ok expected a q (from_byte (get_or a.bytes 0 0))
            (sym (try_from_lem expected a) ∙ h) in
        (address, (from_byte_iff (get_or a.bytes 0 0) q.zone).0.0 z, l)

    back :
        (q.address ≡ a) × (byte q.zone ≡ get_or a.bytes 0 0) × (ledger a ≡ expected)
        → try_from expected a ≡ ok q
    back (e, z, l) =
        try_from_lem expected a
        ∙ ap (with_zone expected a) ((from_byte_iff (get_or a.bytes 0 0) q.zone).0.1 z)
        ∙ with_zone-accepts expected a q.zone ((ledger_eq_iff (ledger a) expected).1 l)
        ∙ ap (λ (x : Address). ok (record { address = x; zone = q.zone })) (sym e)

-- The ledger of the second byte: Quai below 128, Qi from 128 on.
abbrev pub IsLedger : Ledger → ℕ → Type 0
IsLedger quai b = b < 128
IsLedger qi b = 128 ≤ b

bit_test : ℕ → Bool
bit_test b = if bit_and b 0x80 == 0 then ltb b 128 else leb 128 b

bit_table : all_below 256 bit_test ≡ true
unfolding all_below bit_test
bit_table = refl

ledger_iff :
    (expected : Ledger) (a : Address)
    → get_or a.bytes 1 0 < 256
    → (ledger a ≡ expected) ↔ IsLedger expected (get_or a.bytes 1 0)
unfolding ledger bit_test
ledger_iff expected a small =
    let row = all_below_sound 256 bit_test bit_table (get_or a.bytes 1 0) small in
    elim (Bool-cases (bit_and (get_or a.bytes 1 0) 0x80 == 0)) [
      | inl e ↦ rw e (is_quai expected (get_or a.bytes 1 0) (rw e at row))
      | inr e ↦ rw e (is_qi expected (get_or a.bytes 1 0) (rw e at row))
    ]
  where
    is_quai : (l : Ledger) (b : ℕ) → ltb b 128 ≡ true → (◌≡◌ {A = Ledger} quai l) ↔ IsLedger l b
    is_quai quai b h = (λ _. ground arith, λ _. refl)
    is_quai qi b h = (λ e. cc, λ k. absurd (ground arith))

    is_qi : (l : Ledger) (b : ℕ) → leb 128 b ≡ true → (◌≡◌ {A = Ledger} qi l) ↔ IsLedger l b
    is_qi quai b h = (λ e. cc, λ k. absurd (ground arith))
    is_qi qi b h = (λ _. ground arith, λ _. refl)

-- An address whose second byte is below 256 converts to the Quai or the Qi ledger exactly when its
-- first byte is the zone's and its second is below 128 for Quai, or 128 or more for Qi; the conversion
-- keeps the address.
pub try_from_iff :
    (expected : Ledger) (a : Address) (q : LedgerAddress)
    → get_or a.bytes 1 0 < 256
    → (try_from expected a ≡ ok q) ↔ (
        (q.address ≡ a)
        × (byte q.zone ≡ get_or a.bytes 0 0)
        × IsLedger expected (get_or a.bytes 1 0))
try_from_iff expected a q small =
    let (forth, back) = try_from-ledger_iff expected a q in
    let (bit, unbit) = ledger_iff expected a small in
    (λ h. let (same, z, l) = forth h in (same, z, bit l), λ (same, z, l). back (same, z, unbit l))
