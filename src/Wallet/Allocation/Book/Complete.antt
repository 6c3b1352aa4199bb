-- ===== src/Wallet/Allocation/Book/Complete.antt =====
-- A completion stores an address or finds it again (crates/quai-wallet/src/allocation.rs,
-- `complete`).
use quai_rust_sdk.Prelude.{
  ℕ, leb, true, false, not, List, [], ◌∷◌, All, some, Result, ok, err, reject_if_iff, >>=_iff,
  ok_or_iff, ok-injective, ◌≡◌, refl, sym, ap, ◌∙◌, subst, ◌⊎◌, inl, inr, arith, or-false,
  not-false, false_iff,
}
use quai_rust_sdk.Primitives.Address.{address_eq, zone}
use quai_rust_sdk.Primitives.Shard.{Zone, ShardError, zone_eq}
use quai_rust_sdk.Primitives.Shard.Bytes.{zone_eq_iff}
use quai_rust_sdk.Consensus.Qi.Outputs.{address_eq_iff}
use quai_rust_sdk.Wallet.Metadata.{invalid, conflict, transition, PublicAddress, derive}
use quai_rust_sdk.Wallet.Allocation.{
  AddressAllocationStatus, pending, abandoned, completed, AddressAllocation, AddressAllocationBook,
  find, set_status, is_pending, complete, complete_at, complete_new, any_address, has_address,
  is_elsewhere,
}
use quai_rust_sdk.Wallet.Allocation.Journal.{Differ, IsNew}
use quai_rust_sdk.Wallet.Allocation.Book.{IsStatus, IsBook, marked-IsBook, ok_pair}

-- No allocation has the address that `any_address` does not find.
any_address-false :
    (p : PublicAddress) (xs : List AddressAllocation)
    → any_address p.address xs ≡ false
    → All (IsNew (completed p)) xs
unfolding any_address Differ
any_address-false p [] h = tt
any_address-false p (x ∷ xs) h =
    let (first, rest) =
      (or-false (has_address p.address x.status) (any_address p.address xs)).0 h in
    (by_status x.status first, any_address-false p xs rest)
  where
    by_status :
        (s : AddressAllocationStatus) → has_address p.address s ≡ false → Differ (completed p) s
    by_status (completed q) e = λ same.
        (false_iff (address_eq q.address p.address) (address_eq_iff q.address p.address)).0 e
          (sym same)
    by_status pending e = tt
    by_status abandoned e = tt

is_elsewhere_iff : (z : Zone) (r : Result ShardError Zone) → is_elsewhere z r ≡ ok false → r ≡ ok z
is_elsewhere_iff z (ok found) h =
    ap ok ((zone_eq_iff found z).0 ((not-false (zone_eq found z)).0 (ok-injective h)))
is_elsewhere_iff z (err e) h = cc

-- The address that a completion stores.
abbrev pub IsStored :
    AddressAllocationBook → ℕ → AddressAllocation → PublicAddress → AddressAllocationBook → Type 0
IsStored b id a p b' =
    (is_pending a.status ≡ true)
    × IsStatus b.scope b.account a.change a.range (completed p)
    × All (IsNew (completed p)) b.allocations
    × (record b { allocations = set_status id (completed p) b.allocations } ≡ b')

stored_lem :
    (b : AddressAllocationBook) (id : ℕ) (a : AddressAllocation) (index : ℕ)
    {b' : AddressAllocationBook} {p : PublicAddress}
    → complete_new b id a index ≡ ok (b', p)
    → IsStored b id a p b'
unfolding complete_new IsStatus
stored_lem b id a index {b' = b'} {p = p} h =
    let (checks, h) = (reject_if_iff _ transition _ (b', p)).0 h in
    let (checks, after) = (or-false _ (leb a.range.end index)).0 checks in
    let (open_status, before) = (or-false (not (is_pending a.status)) _).0 checks in
    let (q, derived, h) = (>>=_iff (derive b.account a.change index) _ (b', p)).0 h in
    let (elsewhere, placed, h) =
      (>>=_iff (is_elsewhere b.scope.zone (zone q.address)) _ (b', p)).0 h in
    let (here, h) = (reject_if_iff elsewhere invalid _ (b', p)).0 h in
    let (unused, h) =
      (reject_if_iff (any_address q.address b.allocations) conflict _ (b', p)).0 h in
    let (books, same) = ok_pair h in
    let zoned = is_elsewhere_iff b.scope.zone (zone q.address) (placed ∙ ap ok here) in
    let whole : IsStored b id a q b' = (
      (not-false (is_pending a.status)).0 open_status,
      (index, ground arith, ground arith, derived, zoned),
      any_address-false q b.allocations unused,
      books,
    ) in
    subst (λ k. IsStored b id a k b') same whole

-- What a completion does: it finds the address again, or it stores a new one.
pub complete_lem :
    (b : AddressAllocationBook) (id index : ℕ) {b' : AddressAllocationBook} {p : PublicAddress}
    → complete b id index ≡ ok (b', p)
    → (a : AddressAllocation) × (find id b.allocations ≡ some a)
      × (((b ≡ b') × (a.status ≡ completed p)) ⊎ IsStored b id a p b')
unfolding complete complete_at
complete_lem b id index {b' = b'} {p = p} h =
    let (a, found, h) = (ok_or_iff (find id b.allocations) invalid _ (b', p)).0 h in
    (a, found, by_status a a.status refl h)
  where
    by_status :
        (a : AddressAllocation) (s : AddressAllocationStatus)
        → a.status ≡ s
        → complete_at b id a index s ≡ ok (b', p)
        → ((b ≡ b') × (a.status ≡ completed p)) ⊎ IsStored b id a p b'
    by_status a (completed q) e h =
        let (_, h) = (reject_if_iff _ transition _ (b', p)).0 h in
        let (books, same) = ok_pair h in inl (books, e ∙ ap completed same)
    by_status a pending e h = inr (stored_lem b id a index h)
    by_status a abandoned e h = inr (stored_lem b id a index h)

pub complete-IsBook :
    (b : AddressAllocationBook) (id index : ℕ) {b' : AddressAllocationBook} {p : PublicAddress}
    → IsBook b
    → complete b id index ≡ ok (b', p)
    → IsBook b'
complete-IsBook b id index {b' = b'} {p = p} book h =
    let (a, found, outcome) = complete_lem b id index h in
    elim outcome [
      | inl again ↦ subst IsBook again.0 book
      | inr (_, sound, fresh, same) ↦
          subst IsBook same (marked-IsBook b id (completed p) book found sound fresh)
    ]
