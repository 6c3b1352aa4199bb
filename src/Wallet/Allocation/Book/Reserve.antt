-- ===== src/Wallet/Allocation/Book/Reserve.antt =====
-- A reservation keeps the invariant (crates/quai-wallet/src/allocation.rs, `reserve`).
use quai_rust_sdk.Prelude.{
  ℕ, ◌+◌, ◌^◌, ◌≤◌, ◌<◌, leb, Bool, true, false, List, [], ◌∷◌, length, All, Option, none, some, ok,
  reject_if_iff, ok-injective, ◌≡◌, refl, ap, subst, ◌≢◌, ◌⊎◌, inl, inr, arith, or-false, not-false,
  and-true,
}
use native.Mathlib.Decide.{dec_lt}
use quai_rust_sdk.Wallet.Allocation.{
  pending, AddressAllocation, Branches, at, set_branch, AddressAllocationBook,
  max_address_allocations, new, find, insert, range_end, is_some, reserve,
}
use quai_rust_sdk.Wallet.Allocation.Journal.{
  IsApart, AreApart-insert, All_imp, All-insert, find-none, open_left,
}
use quai_rust_sdk.Wallet.Allocation.Journal.Some.{Any, Any-insert}
use quai_rust_sdk.Wallet.Allocation.Book.{IsStatus, IsAllocation, IsBurnt, IsBook, entries_raised}

at-set_branch :
    (n : Branches) (c : Bool) (v : ℕ) (d : Bool)
    → ((c ≡ d) × (at (set_branch n c v) d ≡ v)) ⊎ ((c ≢ d) × (at (set_branch n c v) d ≡ at n d))
at-set_branch n true v true = inl (refl, refl)
at-set_branch n true v false = inr ((λ e. cc), refl)
at-set_branch n false v true = inr ((λ e. cc), refl)
at-set_branch n false v false = inl (refl, refl)

length-insert :
    (new : AddressAllocation) (xs : List AddressAllocation) → length (insert new xs) ≤ length xs + 1
unfolding insert
length-insert new [] = omega arith
length-insert new (x ∷ xs) = ground (arith, length-insert new xs)

abbrev pub grown : AddressAllocationBook → ℕ → Bool → ℕ → AddressAllocationBook
grown b id change end = record b {
  allocations =
      insert
        (record {
          id = id;
          change = change;
          range = record { start = at b.next change; end = end };
          status = pending;
        })
        b.allocations;
  next = set_branch b.next change end;
}

-- A new range begins at the cursor, behind all ranges of its branch.
grown-IsBook :
    (b : AddressAllocationBook) (id : ℕ) (change : Bool) (end : ℕ)
    → IsBook b
    → All (λ a. id ≢ a.id) b.allocations
    → length b.allocations < max_address_allocations
    → at b.next change < end
    → end ≤ at b.next change + 100000
    → end ≤ 2 ^ 31
    → IsBook (grown b id change end)
unfolding IsStatus
grown-IsBook b id change end book fresh room low short high = record {
  few = omega (arith, room, length-insert new b.allocations);
  bounds = bounds;
  entries =
      All-insert (IsAllocation b.scope b.account after) new b.allocations fresh
        (low, short, new_end, open_status)
        (All_imp _ _ (entries_raised b.scope b.account b.next after raises) b.allocations
          book.entries);
  apart = AreApart-insert new b.allocations (parted b.allocations fresh book.entries) book.apart;
  burned = burned;
}
  where
    new : AddressAllocation
    new = record {
      id = id;
      change = change;
      range = record { start = at b.next change; end = end };
      status = pending;
    }

    after : Branches
    after = set_branch b.next change end

    raises : (c : Bool) → at b.next c ≤ at after c
    raises c = elim (at-set_branch b.next change end c) [
      | inl here ↦ omega (arith, here.1, low, ap (at b.next) here.0)
      | inr there ↦ omega (arith, there.1)
    ]

    new_end : end ≤ at after change
    new_end = elim (at-set_branch b.next change end change) [
      | inl here ↦ omega (arith, here.1)
      | inr there ↦ absurd (there.0 refl)
    ]

    open_status : IsStatus b.scope b.account change new.range pending
    open_status = tt

    bounds : (c : Bool) → (at b.floor c ≤ at after c) × (at after c ≤ 2 ^ 31)
    bounds c =
        let (under, over) = book.bounds c in
        elim (at-set_branch b.next change end c) [
          | inl here ↦ (omega (arith, under, raises c), omega (arith, here.1, high))
          | inr there ↦ (omega (arith, under, raises c), omega (arith, there.1, over))
        ]

    parted :
        (xs : List AddressAllocation)
        → All (λ a. id ≢ a.id) xs
        → All (IsAllocation b.scope b.account b.next) xs
        → All (IsApart new) xs
    parted [] f h = tt
    parted (x ∷ xs) f h = (
      (f.0, (λ e. inr (omega (arith, (h.0).2, ap (at b.next) e))), open_left x.status),
      parted xs f.1 h.1,
    )

    burned :
        (c : Bool) (i : ℕ)
        → at b.floor c ≤ i
        → i < at after c
        → Any (IsBurnt c i) (insert new b.allocations)
    burned c i under over = elim (dec_lt i (at b.next c)) [
      | yes old ↦ Any-insert (IsBurnt c i) new b.allocations fresh (inr (book.burned c i under old))
      | no later ↦ elim (at-set_branch b.next change end c) [
        | inl here ↦
            Any-insert (IsBurnt c i) new b.allocations fresh (
              inl
                (here.0, omega (arith, later, ap (at b.next) here.0), omega (arith, over, here.1)))
        | inr there ↦ absurd (omega (arith, over, later, there.1))
      ]
    ]

-- What a reservation does: it appends a range at the cursor under a new id.
pub reserve_lem :
    (b : AddressAllocationBook) (id : ℕ) (change : Bool) (max_attempts : ℕ)
    {b' : AddressAllocationBook}
    → reserve b id change max_attempts ≡ ok b'
    → All (λ a. id ≢ a.id) b.allocations
      × (length b.allocations < max_address_allocations)
      × (at b.next change < range_end (at b.next change) max_attempts)
      × (range_end (at b.next change) max_attempts ≤ at b.next change + 100000)
      × (range_end (at b.next change) max_attempts ≤ 2 ^ 31)
      × (grown b id change (range_end (at b.next change) max_attempts) ≡ b')
unfolding reserve
reserve_lem b id change max_attempts {b' = b'} h =
    let (unused, h) = (reject_if_iff (is_some (find id b.allocations)) _ _ b').0 h in
    let (limits, h) = (reject_if_iff _ _ _ b').0 h in
    let (room, built) = (reject_if_iff (leb (2 ^ 31) (at b.next change)) _ _ b').0 h in
    let (attempts, count) =
      (or-false _ (leb max_address_allocations (length b.allocations))).0 limits in
    let (one, many) =
      (and-true (leb 1 max_attempts) (leb max_attempts 100000)).0 ((not-false _).0 attempts) in
    (
      find-none id b.allocations (none_lem (find id b.allocations) unused),
      ground arith,
      ground arith,
      ground arith,
      ground arith,
      ok-injective built,
    )
  where
    none_lem : (o : Option AddressAllocation) → is_some o ≡ false → o ≡ none
    none_lem none e = refl
    none_lem (some a) e = cc

pub reserve-IsBook :
    (b : AddressAllocationBook) (id : ℕ) (change : Bool) (max_attempts : ℕ)
    {b' : AddressAllocationBook}
    → IsBook b
    → reserve b id change max_attempts ≡ ok b'
    → IsBook b'
reserve-IsBook b id change max_attempts {b' = b'} book h =
    let (fresh, room, low, short, high, same) = reserve_lem b id change max_attempts h in
    subst IsBook same (grown-IsBook b id change _ book fresh room low short high)
