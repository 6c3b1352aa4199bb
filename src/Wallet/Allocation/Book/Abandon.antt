-- ===== src/Wallet/Allocation/Book/Abandon.antt =====
-- What gives up pending ranges (crates/quai-wallet/src/allocation.rs, `abandon` and
-- `merge_backup`).
use quai_rust_sdk.Prelude.{
  ℕ, ◌^◌, ◌≤◌, Bool, true, false, not, if◌then◌else◌, List, [], ◌∷◌, map, length, All, some, ok,
  reject_if_iff, ok_or_iff, ok-injective, ◌≡◌, subst, arith, not-false,
}
use quai_rust_sdk.Wallet.Allocation.{
  IndexRange, AddressAllocationStatus, pending, abandoned, completed, AddressAllocation, Branches,
  at, AddressAllocationBook, find, set_status, is_pending, abandon, give_up, merge_backup, raised,
}
use quai_rust_sdk.Wallet.Allocation.Journal.{Differ, AreApart-map-give_up, All-map-give_up, IsNew}
use quai_rust_sdk.Wallet.Allocation.Book.{
  IsStatus, IsAllocation, IsBook, entries_raised, marked-IsBook, ok_pair,
}

pub abandon_lem :
    (b : AddressAllocationBook) (id : ℕ) {b' : AddressAllocationBook}
    → abandon b id ≡ ok b'
    → (a : AddressAllocation) × (find id b.allocations ≡ some a)
      × (is_pending a.status ≡ true)
      × (record b { allocations = set_status id abandoned b.allocations } ≡ b')
unfolding abandon
abandon_lem b id {b' = b'} h =
    let (a, found, h) = (ok_or_iff (find id b.allocations) _ _ b').0 h in
    let (open_status, built) = (reject_if_iff (not (is_pending a.status)) _ _ b').0 h in
    (a, found, (not-false (is_pending a.status)).0 open_status, ok-injective built)

pub abandon-IsBook :
    (b : AddressAllocationBook) (id : ℕ) {b' : AddressAllocationBook}
    → IsBook b
    → abandon b id ≡ ok b'
    → IsBook b'
unfolding IsStatus Differ
abandon-IsBook b id {b' = b'} book h =
    let (a, found, _, same) = abandon_lem b id h in
    subst IsBook same
      (marked-IsBook b id abandoned {a = a} book found open_status (All_any b.allocations))
  where
    open_status : IsStatus b.scope b.account true (record { start = 0; end = 0 }) abandoned
    open_status = tt

    All_any : (xs : List AddressAllocation) → All (IsNew abandoned) xs
    All_any [] = tt
    All_any (x ∷ xs) = (tt, All_any xs)

-- A backup raises the cursors, and with them the floor; what was pending is abandoned.
pub merge_backup-IsBook :
    (b incoming : AddressAllocationBook) (count : ℕ) {b' : AddressAllocationBook}
    → IsBook b
    → IsBook incoming
    → merge_backup b (ok incoming) ≡ ok (b', count)
    → IsBook b'
unfolding merge_backup IsStatus
merge_backup-IsBook b incoming count {b' = b'} book other h = subst IsBook (ok_pair h).0 (record {
  few = omega (arith, book.few, length-map-give_up b.allocations);
  bounds = λ c. (omega arith, bounded c);
  entries =
      All-map-give_up (IsAllocation b.scope b.account b.next)
        (IsAllocation b.scope b.account merged)
        (λ a e. given a (entries_raised b.scope b.account b.next merged grows a e)) b.allocations
        book.entries;
  apart = AreApart-map-give_up b.allocations book.apart;
  burned = λ c i low high. absurd (omega (arith, low, high));
})
  where
    merged : Branches
    merged = record {
      receive = raised b.next.receive incoming.next.receive;
      internal = raised b.next.internal incoming.next.internal;
    }

    grows : (c : Bool) → at b.next c ≤ at merged c
    grows true = ground arith
    grows false = ground arith

    bounded : (c : Bool) → at merged c ≤ 2 ^ 31
    bounded true = ground (arith, (book.bounds true).1, (other.bounds true).1)
    bounded false = ground (arith, (book.bounds false).1, (other.bounds false).1)

    length-map-give_up : (xs : List AddressAllocation) → length (map give_up xs) ≤ length xs
    length-map-give_up [] = omega arith
    length-map-give_up (x ∷ xs) = omega (arith, length-map-give_up xs)

    kept :
        (c : Bool) (r : IndexRange) (s : AddressAllocationStatus)
        → IsStatus b.scope b.account c r s
        → IsStatus b.scope b.account c r (if is_pending s then abandoned else s)
    kept c r (completed p) h = h
    kept c r pending h = tt
    kept c r abandoned h = tt

    given :
        (a : AddressAllocation)
        → IsAllocation b.scope b.account merged a
        → IsAllocation b.scope b.account merged (give_up a)
    given a (low, short, high, status) = (low, short, high, kept a.change a.range a.status status)
