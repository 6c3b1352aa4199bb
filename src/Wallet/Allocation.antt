-- ===== src/Wallet/Allocation.antt =====
-- The journal of allocated addresses (crates/quai-wallet/src/allocation.rs). An id of 16 bytes is
-- the number that they write, which has their order; the map is its list in the order of ids. The
-- namespace hash of an account serves the codec only.
pub mod Journal
pub mod Book
pub mod History
mod Tests
use quai_rust_sdk.Prelude.{
  ℕ, ◌+◌, ◌-◌, ◌^◌, ◌==◌, leb, ltb, min, Bool, true, false, not, ◌&&◌, ◌||◌, if◌then◌else◌, List,
  [], ◌∷◌, map, length, Option, none, some, Result, ok, err, ◌>>=◌, ◌>>◌, reject_if, ok_or,
}
use quai_rust_sdk.Primitives.Address.{Address, address_eq, zone}
use quai_rust_sdk.Primitives.Hash.{Hash, bytes_eq, zero_hash}
use quai_rust_sdk.Primitives.Shard.{Zone, zone_eq, ShardError}
use quai_rust_sdk.Wallet.Metadata.{
  StorageError, invalid, conflict, derivation_exhausted, transition, KeyOrigin, imported_public,
  bip44, PublicAddress, AccountPublic, derive,
}

pub record NetworkScope : Type 0 where
  pub chain_id : ℕ
  pub genesis : Hash
  pub zone : Zone

pub record IndexRange : Type 0 where
  pub start : ℕ
  pub end : ℕ

pub data AddressAllocationStatus : Type 0 where
  pending abandoned : AddressAllocationStatus
  completed : PublicAddress → AddressAllocationStatus

pub record AddressAllocation : Type 0 where
  pub id : ℕ
  pub change : Bool
  pub range : IndexRange
  pub status : AddressAllocationStatus

-- `[u32; 2]`, indexed by the branch.
pub record Branches : Type 0 where
  pub receive : ℕ
  pub internal : ℕ

abbrev pub at : Branches → Bool → ℕ
at b change = if change then b.internal else b.receive

abbrev pub set_branch : Branches → Bool → ℕ → Branches
set_branch b change v = if change then record b { internal = v } else record b { receive = v }

pub record AddressAllocationBook : Type 0 where
  pub scope : NetworkScope
  pub account : AccountPublic
  pub sealed_history : Bool
  pub floor : Branches
  pub next : Branches
  pub allocations : List AddressAllocation

abbrev pub max_address_allocations : ℕ
max_address_allocations = 4096

unfoldable pub new :
    NetworkScope → AccountPublic → ℕ → ℕ → Result StorageError AddressAllocationBook
new scope account first_receive first_change =
    let floor : Branches = record { receive = first_receive; internal = first_change } in
    reject_if
      (scope.chain_id == 0
        || bytes_eq scope.genesis zero_hash
        || ltb (2 ^ 31) first_receive
        || ltb (2 ^ 31) first_change)
      invalid
    >> ok (record {
      scope = scope;
      account = account;
      sealed_history = false;
      floor = floor;
      next = floor;
      allocations = [];
    })

-- `BTreeMap::get`, `insert` and `get_mut`.
unfoldable pub find : ℕ → List AddressAllocation → Option AddressAllocation
find id [] = none
find id (a ∷ rest) = if a.id == id then some a else find id rest

unfoldable pub insert : AddressAllocation → List AddressAllocation → List AddressAllocation
insert new [] = new ∷ []
insert new (a ∷ rest) =
    let later = insert new rest in
    if ltb new.id a.id then new ∷ a ∷ rest else if new.id == a.id then new ∷ rest else a ∷ later

unfoldable pub set_status :
    ℕ → AddressAllocationStatus → List AddressAllocation → List AddressAllocation
set_status id status [] = []
set_status id status (a ∷ rest) =
    let later = set_status id status rest in
    if a.id == id then record a { status = status } ∷ rest else a ∷ later

abbrev pub allocation : AddressAllocationBook → ℕ → Option AddressAllocation
allocation book id = find id book.allocations

abbrev pub is_some : Option AddressAllocation → Bool
is_some none = false
is_some (some a) = true

-- `start.saturating_add(max_attempts).min(1 << 31)`
abbrev pub range_end : ℕ → ℕ → ℕ
range_end start max_attempts = min (min (start + max_attempts) (2 ^ 32 - 1)) (2 ^ 31)

unfoldable pub reserve :
    AddressAllocationBook → ℕ → Bool → ℕ → Result StorageError AddressAllocationBook
unfolding find insert
reserve book id change max_attempts =
    reject_if (is_some (allocation book id)) conflict
    >> (reject_if
          (not (leb 1 max_attempts && leb max_attempts 100000)
            || leb max_address_allocations (length book.allocations))
          invalid
        >> (let start = at book.next change in
            reject_if (leb (2 ^ 31) start) derivation_exhausted
            >> (let end = range_end start max_attempts in
                ok (record book {
                  allocations =
                      insert
                        (record {
                          id = id;
                          change = change;
                          range = record { start = start; end = end };
                          status = pending;
                        })
                        book.allocations;
                  next = set_branch book.next change end;
                }))))

-- `matches!(address.origin(), KeyOrigin::Bip44 { index: old, .. } if old == index)`
abbrev pub has_index : KeyOrigin → ℕ → Bool
has_index imported_public index = false
has_index (bip44 coin account change old) index = old == index

abbrev pub is_pending : AddressAllocationStatus → Bool
is_pending pending = true
is_pending _ = false

abbrev pub has_address : Address → AddressAllocationStatus → Bool
has_address a (completed old) = address_eq old.address a
has_address a _ = false

-- `.values().any(..)`
unfoldable pub any_address : Address → List AddressAllocation → Bool
any_address address [] = false
any_address address (a ∷ rest) = has_address address a.status || any_address address rest

abbrev pub is_elsewhere : Zone → Result ShardError Zone → Result StorageError Bool
is_elsewhere z (ok found) = ok (not (zone_eq found z))
is_elsewhere z (err e) = err invalid

-- The tail of `complete`, of an allocation with an unfinished status.
unfoldable pub complete_new :
    AddressAllocationBook
    → ℕ
    → AddressAllocation
    → ℕ
    → Result StorageError (AddressAllocationBook × PublicAddress)
unfolding any_address set_status derive zone
complete_new book id a index =
    reject_if (not (is_pending a.status) || ltb index a.range.start || leb a.range.end index)
      transition
    >> (derive book.account a.change index >>= λ address.
        is_elsewhere book.scope.zone (zone address.address) >>= λ elsewhere.
        reject_if elsewhere invalid
        >> (reject_if (any_address address.address book.allocations) conflict
            >> ok (
              record book { allocations = set_status id (completed address) book.allocations },
              address,
            )))

unfoldable pub complete_at :
    AddressAllocationBook
    → ℕ
    → AddressAllocation
    → ℕ
    → AddressAllocationStatus
    → Result StorageError (AddressAllocationBook × PublicAddress)
unfolding complete_new
complete_at book id a index (completed address) =
    reject_if (not (has_index address.origin index)) transition >> ok (book, address)
complete_at book id a index _ = complete_new book id a index

unfoldable pub complete :
    AddressAllocationBook → ℕ → ℕ → Result StorageError (AddressAllocationBook × PublicAddress)
unfolding find complete_at
complete book id index =
    ok_or (allocation book id) invalid >>= λ a. complete_at book id a index a.status

unfoldable pub abandon : AddressAllocationBook → ℕ → Result StorageError AddressAllocationBook
unfolding find set_status
abandon book id = ok_or (allocation book id) invalid >>= λ a.
    reject_if (not (is_pending a.status)) transition
    >> ok (record book { allocations = set_status id abandoned book.allocations })

abbrev pub give_up : AddressAllocation → AddressAllocation
give_up a = record a { status = if is_pending a.status then abandoned else a.status }

unfoldable pub count_pending : List AddressAllocation → ℕ
count_pending [] = 0
count_pending (a ∷ rest) = (if is_pending a.status then 1 else 0) + count_pending rest

-- `max` of the cursors of a branch.
abbrev pub raised : ℕ → ℕ → ℕ
raised a b = if ltb a b then b else a

-- `merge_backup` on the book that `from_backup` gives of the archive.
unfoldable pub merge_backup :
    AddressAllocationBook
    → Result StorageError AddressAllocationBook
    → Result StorageError (AddressAllocationBook × ℕ)
unfolding count_pending
merge_backup book from_backup = from_backup >>= λ incoming.
    (let next : Branches = record {
      receive = raised book.next.receive incoming.next.receive;
      internal = raised book.next.internal incoming.next.internal;
    } in
      ok (
        record book {
          allocations = map give_up book.allocations;
          next = next;
          floor = next;
          sealed_history = true;
        },
        count_pending book.allocations,
      ))
