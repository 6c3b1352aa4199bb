-- ===== src/Provider/Confirmation/Sound.antt =====
-- A confirmation is what the five reads say together.
use quai_rust_sdk.Prelude.{
  ℕ, ◌+◌, ◌-◌, ◌≤◌, ◌<◌, ◌==◌, ◌≡◌, refl, ap, subst, ◌∙◌, arith, ltb, not_ltb→le, Bool, true, false,
  if◌then◌else◌, Option, none, some, some_injective, Result, ok, err, ok-injective, ◌>>=◌, >>=_iff,
  ok_or_iff, and-true, ==_iff,
}
use quai_rust_sdk.Prelude.Words.{checked_add, checked_add-some}
use quai_rust_sdk.Primitives.Hash.{Hash, bytes_eq, bytes_eq_iff}
use quai_rust_sdk.Provider.Types.{ProviderError, invalid_request, invalid_result, ZoneHeader}
use quai_rust_sdk.Provider.Confirmation.{
  Inclusion, Receipt, ConfirmedReceipt, Reads, Confirmation, inclusion_eq, has_hash, check_head,
  check_again, check_block, check_depth, after_receipt, confirmation_poll,
}

-- What the answers of a poll must be for it to confirm `c`.
pub record IsConfirmed (required : ℕ) (reads : Reads) (c : ConfirmedReceipt) : Type 0 where
  pub seen : Receipt
  pub block : ZoneHeader
  pub head_again : ZoneHeader
  pub first : reads.first_receipt ≡ ok (some seen)
  pub head : reads.latest_header ≡ ok (some c.observed_head)
  pub below : seen.inclusion.block_number ≤ c.observed_head.number
  pub depth : c.confirmations ≡ c.observed_head.number - seen.inclusion.block_number + 1
  pub enough : required ≤ c.confirmations
  pub including : reads.block_header seen.inclusion.block_number ≡ ok (some block)
  pub canonical : block.hash ≡ seen.inclusion.block_hash
  pub second : reads.second_receipt ≡ ok (some c.receipt)
  pub same_place : c.receipt.inclusion ≡ seen.inclusion
  pub head_read : reads.head_header c.observed_head.number ≡ ok (some head_again)
  pub same_head : head_again.hash ≡ c.observed_head.hash

inclusion_eq_sound : (a b : Inclusion) → inclusion_eq a b ≡ true → a ≡ b
inclusion_eq_sound a b h =
    let (hashes, rest) = (and-true (bytes_eq a.block_hash b.block_hash) _).0 h in
    let (numbers, indices) = (and-true (a.block_number == b.block_number) _).0 rest in
    cc (
      (bytes_eq_iff a.block_hash b.block_hash).0 hashes,
      (==_iff a.block_number b.block_number).0 numbers,
      (==_iff a.transaction_index b.transaction_index).0 indices,
    )

has_hash-some :
    (hash : Hash) (o : Option ZoneHeader)
    → has_hash hash o ≡ true
    → (header : ZoneHeader) × (o ≡ some header) × (header.hash ≡ hash)
has_hash-some hash none h = cc
has_hash-some hash (some header) h = (header, refl, (bytes_eq_iff header.hash hash).0 h)

-- A branch that answers nothing was not taken.
taken :
    (b : Bool) (x : Confirmation) (c : ConfirmedReceipt)
    → (if b then x else ok none) ≡ ok (some c)
    → (b ≡ true) × (x ≡ ok (some c))
taken true x c h = (refl, h)
taken false x c h = cc

not_taken :
    (b : Bool) (x : Confirmation) (c : ConfirmedReceipt)
    → (if b then ok none else x) ≡ ok (some c)
    → (b ≡ false) × (x ≡ ok (some c))
not_taken true x c h = cc
not_taken false x c h = (refl, h)

-- The inversions of the checks, innermost first: each says what its reads answered.
check_head-some :
    (reads : Reads) (latest : Receipt) (n : ℕ) (head : ZoneHeader) (c : ConfirmedReceipt)
    → check_head reads latest n head ≡ ok (some c)
    → (again : ZoneHeader) × (reads.head_header head.number ≡ ok (some again))
      × (again.hash ≡ head.hash)
      × (record { receipt = latest; confirmations = n; observed_head = head } ≡ c)
check_head-some reads latest n head c h =
    let (o, e, h1) = (>>=_iff (reads.head_header head.number) _ (some c)).0 h in
    let (same, h2) = taken (has_hash head.hash o) _ c h1 in
    let (again, is, hash) = has_hash-some head.hash o same in
    (again, e ∙ ap ok is, hash, some_injective (ok-injective h2))

check_again-some :
    (reads : Reads) (seen : Receipt) (n : ℕ) (head : ZoneHeader) (o : Option Receipt)
    (c : ConfirmedReceipt)
    → check_again reads seen n head o ≡ ok (some c)
    → (latest : Receipt) × (o ≡ some latest)
      × (latest.inclusion ≡ seen.inclusion)
      × (check_head reads latest n head ≡ ok (some c))
check_again-some reads seen n head none c h = cc
check_again-some reads seen n head (some latest) c h =
    let (same, h1) = taken (inclusion_eq latest.inclusion seen.inclusion) _ c h in
    (latest, refl, inclusion_eq_sound latest.inclusion seen.inclusion same, h1)

check_depth-some :
    (required : ℕ) (reads : Reads) (seen : Receipt) (o : Option ZoneHeader) (c : ConfirmedReceipt)
    → check_depth required reads seen o ≡ ok (some c)
    → (head : ZoneHeader) × (o ≡ some head)
      × (seen.inclusion.block_number ≤ head.number)
      × (required ≤ head.number - seen.inclusion.block_number + 1)
      × (check_block reads seen (head.number - seen.inclusion.block_number + 1) head ≡ ok (some c))
check_depth-some required reads seen none c h = cc
check_depth-some required reads seen (some head) c h =
    let block = seen.inclusion.block_number in
    let (below, h1) = not_taken (ltb head.number block) _ c h in
    let (n, e, h2) =
      (ok_or_iff (checked_add 64 (head.number - block) 1) invalid_result _ (some c)).0 h1 in
    let (enough, h3) = not_taken (ltb n required) _ c h2 in
    let depth = (checked_add-some 64 (head.number - block) 1 e).0 in
    (
      head,
      refl,
      not_ltb→le head.number block below,
      subst (λ (k : ℕ). required ≤ k) depth (not_ltb→le n required enough),
      subst (λ (k : ℕ). check_block reads seen k head ≡ ok (some c)) depth h3,
    )

depth-IsConfirmed :
    (required : ℕ) (reads : Reads) (seen : Receipt) (c : ConfirmedReceipt)
    → reads.first_receipt ≡ ok (some seen)
    → (reads.latest_header >>= check_depth required reads seen) ≡ ok (some c)
    → IsConfirmed required reads c
depth-IsConfirmed required reads seen c first h =
    let (o, e, h1) = (>>=_iff reads.latest_header _ (some c)).0 h in
    let (head, is, below, enough, h2) = check_depth-some required reads seen o c h1 in
    let n = head.number - seen.inclusion.block_number + 1 in
    let (p, e2, h3) = (>>=_iff (reads.block_header seen.inclusion.block_number) _ (some c)).0 h2 in
    let (same, h4) = taken (has_hash seen.inclusion.block_hash p) _ c h3 in
    let (block, is_block, hash) = has_hash-some seen.inclusion.block_hash p same in
    let (q, e3, h5) = (>>=_iff reads.second_receipt _ (some c)).0 h4 in
    let (latest, is_latest, place, h6) = check_again-some reads seen n head q c h5 in
    let (again, e4, hash_again, built) = check_head-some reads latest n head c h6 in
    subst (IsConfirmed required reads) built (record {
      seen = seen;
      block = block;
      head_again = again;
      first = first;
      head = e ∙ ap ok is;
      below = below;
      depth = refl;
      enough = enough;
      including = e2 ∙ ap ok is_block;
      canonical = hash;
      second = e3 ∙ ap ok is_latest;
      same_place = place;
      head_read = e4;
      same_head = hash_again;
    })

receipt-IsConfirmed :
    (required : ℕ) (last : Option Inclusion) (reads : Reads) (c : ConfirmedReceipt)
    (r : Result ProviderError (Option Receipt))
    → reads.first_receipt ≡ r
    → (after_receipt required last reads r).1 ≡ ok (some c)
    → IsConfirmed required reads c
receipt-IsConfirmed required last reads c (err e) first h = cc
receipt-IsConfirmed required last reads c (ok none) first h = cc
receipt-IsConfirmed required last reads c (ok (some seen)) first h =
    depth-IsConfirmed required reads seen c first h

branches :
    (b : Bool) (last : Option Inclusion) (p : Option Inclusion × Confirmation)
    (c : ConfirmedReceipt)
    → (if b then (last, err invalid_request) else p).1 ≡ ok (some c)
    → (b ≡ false) × (p.1 ≡ ok (some c))
branches true last p c h = cc
branches false last p c h = (refl, h)

-- A poll that confirms a receipt was asked for a positive depth; it read the receipt twice in the
-- same place, its block by number with the same hash, and the observed head by number with the same
-- hash, and the depth that it reports is that of the block below the head and at least the one
-- asked for.
pub confirmation_poll-IsConfirmed :
    (required : ℕ) (last : Option Inclusion) (reads : Reads) (c : ConfirmedReceipt)
    → (confirmation_poll required last reads).1 ≡ ok (some c)
    → (0 < required) × IsConfirmed required reads c
unfolding confirmation_poll
confirmation_poll-IsConfirmed required last reads c h =
    let (positive, h1) =
      branches (required == 0) last (after_receipt required last reads reads.first_receipt) c h in
    (ground arith, receipt-IsConfirmed required last reads c reads.first_receipt refl h1)
