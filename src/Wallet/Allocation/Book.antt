-- ===== src/Wallet/Allocation/Book.antt =====
-- The invariant of an address book, and what keeps it (crates/quai-wallet/src/allocation.rs).
pub mod Reserve
pub mod Complete
pub mod Abandon
use quai_rust_sdk.Prelude.{
  ℕ, ◌+◌, ◌^◌, ◌≤◌, ◌<◌, leb, ltb, Bool, true, false, not, if◌then◌else◌, List, [], ◌∷◌, map,
  length, All, Option, none, some, Result, ok, err, reject_if_iff, >>=_iff, ok_or_iff, ok-injective,
  ◌≡◌, refl, sym, ap, ◌∙◌, subst, ◌≢◌, ◌⊎◌, inl, inr, arith, or-false, not-false, and-true,
  false_iff,
}
use native.Mathlib.Decide.{dec_lt}
use quai_rust_sdk.Primitives.Address.{address_eq, zone}
use quai_rust_sdk.Primitives.Shard.{Zone, ShardError, zone_eq}
use quai_rust_sdk.Primitives.Shard.Bytes.{zone_eq_iff}
use quai_rust_sdk.Consensus.Qi.Outputs.{address_eq_iff}
use quai_rust_sdk.Wallet.Metadata.{
  StorageError, invalid, conflict, transition, PublicAddress, AccountPublic, derive,
}
use quai_rust_sdk.Wallet.Allocation.{
  NetworkScope, IndexRange, AddressAllocationStatus, pending, abandoned, completed,
  AddressAllocation, Branches, at, set_branch, AddressAllocationBook, max_address_allocations, new,
  find, insert, set_status, range_end, is_some, is_pending, reserve, complete, complete_at,
  complete_new, abandon, give_up, merge_backup, any_address, has_address, is_elsewhere, raised,
}
use quai_rust_sdk.Wallet.Allocation.Journal.{
  Differ, IsApart, AreApart, AreApart-insert, AreApart-set_status, AreApart-map-give_up, All_imp,
  All-insert, All-set_status, All-map-give_up, IsNew, find-All, find-none, open_left,
}
use quai_rust_sdk.Wallet.Allocation.Journal.Some.{Any, Any-insert, Any-set_status}

-- A completed status carries the address that the account derives at an index of the range, in the
-- zone of the scope.
unfoldable pub IsStatus :
    NetworkScope → AccountPublic → Bool → IndexRange → AddressAllocationStatus → Type 0
IsStatus scope account change range (completed p) =
    (index : ℕ) × (range.start ≤ index)
    × (index < range.end)
    × (derive account change index ≡ ok p)
    × (zone p.address ≡ ok scope.zone)
IsStatus scope account change range s = Unit

-- A range of 1 to 100,000 indexes that the cursors `next` have passed.
abbrev pub IsAllocation : NetworkScope → AccountPublic → Branches → AddressAllocation → Type 0
IsAllocation scope account next a =
    (a.range.start < a.range.end)
    × (a.range.end ≤ a.range.start + 100000)
    × (a.range.end ≤ at next a.change)
    × IsStatus scope account a.change a.range a.status

-- The range of an allocation of the branch has the index.
abbrev pub IsBurnt : Bool → ℕ → AddressAllocation → Type 0
IsBurnt change i a = (a.change ≡ change) × (a.range.start ≤ i) × (i < a.range.end)

-- The allocations are apart from each other, and those of a branch have exactly burned its indexes
-- from the floor up to the cursor.
pub record IsBook (b : AddressAllocationBook) : Type 0 where
  pub few : length b.allocations ≤ max_address_allocations
  pub bounds : (c : Bool) → (at b.floor c ≤ at b.next c) × (at b.next c ≤ 2 ^ 31)
  pub entries : All (IsAllocation b.scope b.account b.next) b.allocations
  pub apart : AreApart b.allocations
  pub burned :
      (c : Bool) (i : ℕ) → at b.floor c ≤ i → i < at b.next c → Any (IsBurnt c i) b.allocations

pub new-IsBook :
    (scope : NetworkScope) (account : AccountPublic) (receive change : ℕ)
    {b : AddressAllocationBook}
    → new scope account receive change ≡ ok b
    → IsBook b
unfolding new
new-IsBook scope account receive change {b = b} h =
    let (checks, built) = (reject_if_iff _ _ _ b).0 h in
    let (checks, internal) = (or-false _ (ltb (2 ^ 31) change)).0 checks in
    let (checks, external) = (or-false _ (ltb (2 ^ 31) receive)).0 checks in
    subst IsBook (ok-injective built) (record {
      few = omega arith;
      bounds = by_branch (ground arith) (ground arith);
      entries = tt;
      apart = tt;
      burned = λ c i low high. absurd (omega (arith, low, high));
    })
  where
    by_branch :
        receive ≤ 2 ^ 31
        → change ≤ 2 ^ 31
        → (c : Bool)
        → ((if c then change else receive) ≤ (if c then change else receive))
          × ((if c then change else receive) ≤ 2 ^ 31)
    by_branch low high true = (omega arith, high)
    by_branch low high false = (omega arith, low)

-- Raising a cursor keeps the entries.
pub entries_raised :
    (scope : NetworkScope) (account : AccountPublic) (next after : Branches)
    → ((c : Bool) → at next c ≤ at after c)
    → (a : AddressAllocation) → IsAllocation scope account next a
    → IsAllocation scope account after a
entries_raised scope account next after grows a (low, short, high, status) =
    (low, short, omega (arith, high, grows a.change), status)

pub ok_pair :
    {A : Type 0} {b b' : AddressAllocationBook} {a a' : A}
    → ◌≡◌ {A = Result StorageError (AddressAllocationBook × A)} (ok (b, a)) (ok (b', a'))
    → (b ≡ b') × (a ≡ a')
ok_pair {A = A} h = (
  ap (λ (r : AddressAllocationBook × A). r.0) (ok-injective h),
  ap (λ (r : AddressAllocationBook × A). r.1) (ok-injective h),
)

length-set_status :
    (id : ℕ) (status : AddressAllocationStatus) (xs : List AddressAllocation)
    → length (set_status id status xs) ≤ length xs
unfolding set_status
length-set_status id status [] = omega arith
length-set_status id status (x ∷ xs) = ground (arith, length-set_status id status xs)

-- A change of status keeps the ranges, and with them what is burned.
pub marked-IsBook :
    (b : AddressAllocationBook) (id : ℕ) (status : AddressAllocationStatus) {a : AddressAllocation}
    → IsBook b
    → find id b.allocations ≡ some a
    → IsStatus b.scope b.account a.change a.range status
    → All (IsNew status) b.allocations
    → IsBook (record b { allocations = set_status id status b.allocations })
marked-IsBook b id status book found sound new = record {
  few = omega (arith, book.few, length-set_status id status b.allocations);
  bounds = book.bounds;
  entries =
      let (entry, _) =
        find-All (IsAllocation b.scope b.account b.next) id b.allocations found book.entries in
      All-set_status (IsAllocation b.scope b.account b.next) id status b.allocations found
        (entry.0, entry.1, entry.2, sound) book.entries;
  apart = AreApart-set_status id status b.allocations found new book.apart;
  burned = λ c i under over.
      Any-set_status (IsBurnt c i) id status b.allocations found (λ h. h)
        (inr (book.burned c i under over));
}
