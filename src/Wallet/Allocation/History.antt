-- ===== src/Wallet/Allocation/History.antt =====
-- The address books that a program can hold, over any sequence of calls
-- (crates/quai-wallet/src/allocation.rs).
use quai_rust_sdk.Prelude.{
  ℕ, Bool, true, if◌then◌else◌, List, [], ◌∷◌, All, ok, ◌≡◌, refl, ap, subst, inl, inr,
}
use quai_rust_sdk.Wallet.Metadata.{PublicAddress, AccountPublic}
use quai_rust_sdk.Wallet.Allocation.{
  NetworkScope, AddressAllocationStatus, pending, abandoned, completed, AddressAllocation,
  AddressAllocationBook, new, is_pending, reserve, complete, abandon, merge_backup,
}
use quai_rust_sdk.Wallet.Allocation.Journal.{find-All}
use quai_rust_sdk.Wallet.Allocation.Journal.Some.{
  Any, Any-insert, Any-map-give_up, Any-found, Any-set_status, IsHolder, holder_unique,
}
use quai_rust_sdk.Wallet.Allocation.Book.{IsBook, new-IsBook, ok_pair}
use quai_rust_sdk.Wallet.Allocation.Book.Reserve.{reserve_lem, reserve-IsBook}
use quai_rust_sdk.Wallet.Allocation.Book.Complete.{complete_lem, complete-IsBook}
use quai_rust_sdk.Wallet.Allocation.Book.Abandon.{abandon_lem, abandon-IsBook, merge_backup-IsBook}

-- One successful call. The book of a backup is made by `new` for the same scope and account.
pub data Step : AddressAllocationBook → AddressAllocationBook → Type 0 where
  reserved :
      (id : ℕ) (change : Bool) (max_attempts : ℕ) {b b' : AddressAllocationBook}
      → reserve b id change max_attempts ≡ ok b'
      → Step b b'
  finished :
      (id index : ℕ) (p : PublicAddress) {b b' : AddressAllocationBook}
      → complete b id index ≡ ok (b', p)
      → Step b b'
  dropped : (id : ℕ) {b b' : AddressAllocationBook} → abandon b id ≡ ok b' → Step b b'
  merged :
      (receive change count : ℕ) {b incoming b' : AddressAllocationBook}
      → new b.scope b.account receive change ≡ ok incoming
      → merge_backup b (ok incoming) ≡ ok (b', count)
      → Step b b'

pub data Later (b : AddressAllocationBook) : AddressAllocationBook → Type 0 where
  now : Later b b
  after : {c d : AddressAllocationBook} → Later b c → Step c d → Later b d

Step-IsBook : {b b' : AddressAllocationBook} → Step b b' → IsBook b → IsBook b'
Step-IsBook (reserved id change n {b} {b'} h) book = reserve-IsBook b id change n {b' = b'} book h
Step-IsBook (finished id index p {b} {b'} h) book =
    complete-IsBook b id index {b' = b'} {p = p} book h
Step-IsBook (dropped id {b} {b'} h) book = abandon-IsBook b id {b' = b'} book h
Step-IsBook (merged receive change count {b} {incoming} {b'} n h) book =
    merge_backup-IsBook b incoming count {b' = b'} book
      (new-IsBook b.scope b.account receive change {b = incoming} n) h

Later-IsBook : {b b' : AddressAllocationBook} → Later b b' → IsBook b → IsBook b'
Later-IsBook now book = book
Later-IsBook (after l s) book = Step-IsBook s (Later-IsBook l book)

-- In every book that is opened at some cursors and then used in any order of calls, there are at most
-- 4,096 allocations and the cursors stay between their floor and 2 ^ 31; the allocations
-- have different ids and never meet in an index of a branch or in a completed address; each completed
-- one holds the address that the account derives in its range, in the zone; and each index of a
-- branch from its floor up to its cursor lies in the range of one of them.
pub Later-new-IsBook :
    (scope : NetworkScope) (account : AccountPublic) (receive change : ℕ)
    {b b' : AddressAllocationBook}
    → new scope account receive change ≡ ok b
    → Later b b'
    → IsBook b'
Later-new-IsBook scope account receive change {b = b} {b' = b'} h l =
    Later-IsBook l (new-IsBook scope account receive change {b = b} h)

unfinished :
    (s : AddressAllocationStatus) (p : PublicAddress) → s ≡ completed p → is_pending s ≡ true → ⊥
unfinished (completed q) p e h = cc
unfinished pending p e h = cc
unfinished abandoned p e h = cc

-- An id keeps the address that it holds.
Step-holds :
    (id : ℕ) (p : PublicAddress) {b b' : AddressAllocationBook}
    → Step b b'
    → Any (IsHolder id p) b.allocations
    → Any (IsHolder id p) b'.allocations
unfolding merge_backup
Step-holds id p (reserved i change n {b} {b'} h) held =
    let (fresh, _, _, _, _, same) = reserve_lem b i change n {b' = b'} h in
    subst (λ (k : AddressAllocationBook). Any (IsHolder id p) k.allocations) same
      (Any-insert (IsHolder id p) _ b.allocations fresh (inr held))
Step-holds id p (finished i index q {b} {b'} h) held =
    let (a, found, outcome) = complete_lem b i index {b' = b'} {p = q} h in
    elim outcome [
      | inl again ↦
          subst (λ (k : AddressAllocationBook). Any (IsHolder id p) k.allocations) again.0 held
      | inr (open_status, _, _, same) ↦
          subst (λ (k : AddressAllocationBook). Any (IsHolder id p) k.allocations) same
            (Any-set_status (IsHolder id p) i (completed q) b.allocations {a = a} found
              (λ h. absurd (unfinished a.status p h.1 open_status)) (inr held))
    ]
Step-holds id p (dropped i {b} {b'} h) held =
    let (a, found, open_status, same) = abandon_lem b i {b' = b'} h in
    subst (λ (k : AddressAllocationBook). Any (IsHolder id p) k.allocations) same
      (Any-set_status (IsHolder id p) i abandoned b.allocations {a = a} found
        (λ h. absurd (unfinished a.status p h.1 open_status)) (inr held))
Step-holds id p (merged receive change count {b} {incoming} {b'} n h) held =
    subst (λ (k : AddressAllocationBook). Any (IsHolder id p) k.allocations) (ok_pair h).0
      (Any-map-give_up (IsHolder id p)
        (λ a h. (h.0, ap (λ s. if is_pending s then abandoned else s) h.1)) b.allocations held)

Later-holds :
    (id : ℕ) (p : PublicAddress) {b b' : AddressAllocationBook}
    → Later b b'
    → Any (IsHolder id p) b.allocations
    → Any (IsHolder id p) b'.allocations
Later-holds id p now held = held
Later-holds id p (after l s) held = Step-holds id p s (Later-holds id p l held)

complete-holds :
    (b : AddressAllocationBook) (id index : ℕ) {b' : AddressAllocationBook} {p : PublicAddress}
    → complete b id index ≡ ok (b', p)
    → Any (IsHolder id p) b'.allocations
complete-holds b id index {b' = b'} {p = p} h =
    let (a, found, outcome) = complete_lem b id index {b' = b'} {p = p} h in
    let (_, named) = find-All (λ _. Unit {0}) id b.allocations found (All_true b.allocations) in
    elim outcome [
      | inl again ↦
          subst (λ (k : AddressAllocationBook). Any (IsHolder id p) k.allocations) again.0
            (Any-found (IsHolder id p) id b.allocations {a = a} found (named, again.1))
      | inr (_, _, _, same) ↦
          subst (λ (k : AddressAllocationBook). Any (IsHolder id p) k.allocations) same
            (Any-set_status (IsHolder id p) id (completed p) b.allocations {a = a} found
              (λ h. (named, refl)) (inl (named, refl)))
    ]
  where
    All_true : (xs : List AddressAllocation) → All (λ _. Unit {0}) xs
    All_true [] = tt
    All_true (x ∷ xs) = (tt, All_true xs)

-- Whatever is called between two successful completions, the same address is returned only for the
-- same id.
pub complete-distinct :
    (scope : NetworkScope) (account : AccountPublic) (receive change : ℕ) (i k j l : ℕ)
    {opened before once between twice : AddressAllocationBook} {p q : PublicAddress}
    → new scope account receive change ≡ ok opened
    → Later opened before
    → complete before i k ≡ ok (once, p)
    → Later once between
    → complete between j l ≡ ok (twice, q)
    → p.address ≡ q.address
    → i ≡ j
complete-distinct scope account receive change i k j l {opened} {before} {once} {between} {twice}
      {p} {q} n first h more g same =
    let early : IsBook before = Later-new-IsBook scope account receive change n first in
    let book : IsBook twice =
      Step-IsBook (finished j l q g) (Later-IsBook more (Step-IsBook (finished i k p h) early)) in
    holder_unique i j p q twice.allocations book.apart
      (Step-holds i p (finished j l q g) (Later-holds i p more (complete-holds before i k h)))
      (complete-holds between j l g) same
