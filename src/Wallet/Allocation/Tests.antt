-- ===== src/Wallet/Allocation/Tests.antt =====
-- A journal with three calls.
use quai_rust_sdk.Prelude.{
  ℕ, ◌+◌, ◌%◌, ◌≡◌, refl, true, false, List, [], ◌∷◌, replicate, some, ok, err,
}
use quai_rust_sdk.Primitives.Address.{Address}
use quai_rust_sdk.Primitives.Shard.{cyprus1, byte}
use quai_rust_sdk.Wallet.Metadata.{
  AccountPublic, PublicAddress, bip44, qi, conflict, transition, invalid,
}
use quai_rust_sdk.Wallet.Allocation.{
  NetworkScope, AddressAllocationBook, AddressAllocation, AddressAllocationStatus, pending,
  completed, new, reserve, complete,
}
use quai_rust_sdk.Wallet.Allocation.Book.{IsBook}
use quai_rust_sdk.Wallet.Allocation.History.{
  now, after, reserved, finished, Later-new-IsBook, complete-distinct,
}

abbrev cyprus : NetworkScope
cyprus = record { chain_id = 9; genesis = replicate 32 1; zone = cyprus1 }

-- The children of even index are in the zone with byte 0, and those of odd index in that with byte 1.
abbrev child_address : ℕ → Address
child_address index = record { bytes = index % 2 ∷ index ∷ replicate 18 7 }

abbrev an_account : AccountPublic
an_account = record {
  coin = qi;
  account = 0;
  child = λ change index. some (child_address index, []);
}

abbrev path : ℕ → PublicAddress
path index = record {
  address = child_address index;
  public_key = [];
  origin = bip44 qi 0 false index;
}

abbrev entry : ℕ → ℕ → AddressAllocationStatus → AddressAllocation
entry id start status = record {
  id = id;
  change = false;
  range = record { start = start; end = start + 10 };
  status = status;
}

abbrev book_of : ℕ → List AddressAllocation → AddressAllocationBook
book_of next allocations = record {
  scope = cyprus;
  account = an_account;
  sealed_history = false;
  floor = record { receive = 4; internal = 0 };
  next = record { receive = next; internal = 0 };
  allocations = allocations;
}

abbrev one_reserved : AddressAllocationBook
one_reserved = book_of 14 (entry 7 4 pending ∷ [])

abbrev one_done : AddressAllocationBook
one_done = book_of 14 (entry 7 4 (completed (path 6)) ∷ [])

abbrev two_reserved : AddressAllocationBook
two_reserved = book_of 24 (entry 3 14 pending ∷ entry 7 4 (completed (path 6)) ∷ [])

abbrev two_done : AddressAllocationBook
two_done = book_of 24 (entry 3 14 (completed (path 16)) ∷ entry 7 4 (completed (path 6)) ∷ [])

opens : new cyprus an_account 4 0 ≡ ok (book_of 4 [])
unfolding new
opens = refl

reserves : reserve (book_of 4 []) 7 false 10 ≡ ok one_reserved
unfolding reserve
reserves = refl

-- An index in another zone, one out of the range, and an id that is in use.
refuses :
    (complete one_reserved 7 5 ≡ err invalid)
    × (complete one_reserved 7 14 ≡ err transition)
    × (reserve one_reserved 7 true 10 ≡ err conflict)
unfolding complete reserve byte
refuses = (refl, refl, refl)

completes : complete one_reserved 7 6 ≡ ok (one_done, path 6)
unfolding complete byte
completes = refl

reserves_again : reserve one_done 3 false 10 ≡ ok two_reserved
unfolding reserve
reserves_again = refl

completes_again : complete two_reserved 3 16 ≡ ok (two_done, path 16)
unfolding complete byte
completes_again = refl

keeps : complete two_done 7 6 ≡ ok (two_done, path 6)
unfolding complete byte
keeps = refl

Later-new-IsBook_example : IsBook two_done
Later-new-IsBook_example =
    Later-new-IsBook cyprus an_account 4 0 {b = book_of 4 []} {b' = two_done} opens (
      after
        (after (after (after now (reserved 7 false 10 reserves)) (finished 7 6 (path 6) completes))
          (reserved 3 false 10 reserves_again))
        (finished 3 16 (path 16) completes_again))

complete-distinct_example : ◌≡◌ {A = ℕ} 7 7
complete-distinct_example =
    complete-distinct cyprus an_account 4 0 7 6 7 6 {opened = book_of 4 []} {before = one_reserved}
      {once = one_done} {between = two_done} {twice = two_done} {p = path 6} {q = path 6} opens
      (after now (reserved 7 false 10 reserves)) completes
      (after (after now (reserved 3 false 10 reserves_again))
        (finished 3 16 (path 16) completes_again))
      keeps refl
