-- ===== src/Provider/Confirmation.antt =====
-- Confirmation of a receipt over five reads, and the wait around it
-- (crates/quai-provider/src/confirmation.rs and wait.rs).
-- A poll is given the answers of its reads, in their order; durations are in nanoseconds.
pub mod Sound
pub mod Live
use quai_rust_sdk.Prelude.{
  ℕ, zero, suc, ◌+◌, ◌-◌, ◌==◌, ltb, Bool, true, false, not, ◌&&◌, ◌||◌, if◌then◌else◌, Option,
  none, some, Result, ok, err, ◌>>=◌, ok_or,
}
use quai_rust_sdk.Prelude.Words.{checked_add}
use quai_rust_sdk.Primitives.Hash.{Hash, bytes_eq}
use quai_rust_sdk.Provider.Types.{ProviderError, invalid_request, invalid_result, ZoneHeader}

pub record Inclusion : Type 0 where
  pub block_hash : Hash
  pub block_number : ℕ
  pub transaction_index : ℕ

-- The fields that a poll reads.
pub record Receipt : Type 0 where
  pub transaction_hash : Hash
  pub inclusion : Inclusion

pub record ConfirmedReceipt : Type 0 where
  pub receipt : Receipt
  pub confirmations : ℕ
  pub observed_head : ZoneHeader

-- The answers that one poll gets: to `receipt`, `latest_header`, `header_at` of the including
-- block, `receipt` again, and `header_at` of the observed head.
pub record Reads : Type 0 where
  pub first_receipt : Result ProviderError (Option Receipt)
  pub latest_header : Result ProviderError (Option ZoneHeader)
  pub block_header : ℕ → Result ProviderError (Option ZoneHeader)
  pub second_receipt : Result ProviderError (Option Receipt)
  pub head_header : ℕ → Result ProviderError (Option ZoneHeader)

-- The derived equality.
abbrev pub inclusion_eq : Inclusion → Inclusion → Bool
inclusion_eq a b =
    bytes_eq a.block_hash b.block_hash
    && (a.block_number == b.block_number && a.transaction_index == b.transaction_index)

-- `is_some_and(|header| header.hash == hash)`
abbrev pub has_hash : Hash → Option ZoneHeader → Bool
has_hash hash none = false
has_hash hash (some header) = bytes_eq header.hash hash

abbrev pub Confirmation : Type 0
Confirmation = Result ProviderError (Option ConfirmedReceipt)

-- The last read: the observed head is still the header of its height.
abbrev pub check_head : Reads → Receipt → ℕ → ZoneHeader → Confirmation
check_head reads latest confirmations head = reads.head_header head.number >>= λ canonical_head.
    if has_hash head.hash canonical_head
    then ok
        (some (record { receipt = latest; confirmations = confirmations; observed_head = head }))
    else ok none

-- The receipt is read again, and is in the same place.
abbrev pub check_again : Reads → Receipt → ℕ → ZoneHeader → Option Receipt → Confirmation
check_again reads receipt confirmations head none = ok none
check_again reads receipt confirmations head (some latest) =
    if inclusion_eq latest.inclusion receipt.inclusion
    then check_head reads latest confirmations head
    else ok none

-- The including block is still the header of its height.
abbrev pub check_block : Reads → Receipt → ℕ → ZoneHeader → Confirmation
check_block reads receipt confirmations head =
    reads.block_header receipt.inclusion.block_number >>= λ canonical.
    if has_hash receipt.inclusion.block_hash canonical
    then reads.second_receipt >>= check_again reads receipt confirmations head
    else ok none

-- The depth below the observed head.
abbrev pub check_depth : ℕ → Reads → Receipt → Option ZoneHeader → Confirmation
check_depth required reads receipt none = ok none
check_depth required reads receipt (some head) =
    if ltb head.number receipt.inclusion.block_number
    then ok none
    else ok_or (checked_add 64 (head.number - receipt.inclusion.block_number) 1) invalid_result
      >>= λ confirmations.
          if ltb confirmations required
          then ok none
          else check_block reads receipt confirmations head

-- What follows the first read, with the last inclusion that it leaves behind.
abbrev pub after_receipt :
    ℕ
    → Option Inclusion
    → Reads
    → Result ProviderError (Option Receipt)
    → Option Inclusion × Confirmation
after_receipt required last reads (err e) = (last, err e)
after_receipt required last reads (ok none) = (none, ok none)
after_receipt required last reads (ok (some receipt)) =
    (some receipt.inclusion, reads.latest_header >>= check_depth required reads receipt)

-- The second component is the result, the first what the call leaves in
-- `last_observed_inclusion`.
unfoldable pub confirmation_poll : ℕ → Option Inclusion → Reads → Option Inclusion × Confirmation
confirmation_poll required last reads =
    if required == 0
    then (last, err invalid_request)
    else after_receipt required last reads reads.first_receipt

pub data ReceiptConfirmation : Type 0 where
  pending : Option Inclusion → ReceiptConfirmation
  confirmed : ConfirmedReceipt → ReceiptConfirmation

abbrev pub to_confirmation :
    Option Inclusion × Confirmation → Result ProviderError ReceiptConfirmation
to_confirmation (last, err e) = err e
to_confirmation (last, ok none) = ok (pending last)
to_confirmation (last, ok (some receipt)) = ok (confirmed receipt)

unfoldable pub observe_receipt_confirmation : ℕ → Reads → Result ProviderError ReceiptConfirmation
unfolding confirmation_poll
observe_receipt_confirmation required reads =
    to_confirmation (confirmation_poll required none reads)

pub record WaitConfig : Type 0 where
  pub confirmations : ℕ
  pub timeout : ℕ
  pub poll_interval : ℕ

pub data WaitError : Type 0 where
  invalid_config : WaitError
  timed_out : Option Inclusion → WaitError
  provider : ProviderError → WaitError

-- What one poll makes of the wait: an answer, or the loop goes on.
abbrev pub after_poll :
    (Option Inclusion → Result WaitError ConfirmedReceipt)
    → Option Inclusion × Confirmation
    → Result WaitError ConfirmedReceipt
after_poll again (last, err e) = err (provider e)
after_poll again (last, ok (some receipt)) = ok receipt
after_poll again (last, ok none) = again last

-- The loop, of the polls that end before the deadline; the poll `i` gets the answers `reads i`.
unfoldable pub wait_loop :
    ℕ → ℕ → Option Inclusion → ℕ → (ℕ → Reads) → Result WaitError ConfirmedReceipt
unfolding confirmation_poll
wait_loop zero i last required reads = err (timed_out last)
wait_loop (suc polls) i last required reads =
    after_poll (λ next. wait_loop polls (suc i) next required reads)
      (confirmation_poll required last (reads i))

-- `fits` says that the clock can hold the deadline, and `polls` how many polls end before it.
unfoldable pub wait_for_receipt :
    Bool → ℕ → WaitConfig → (ℕ → Reads) → Result WaitError ConfirmedReceipt
unfolding wait_loop
wait_for_receipt fits polls config reads =
    if config.confirmations == 0
      || (config.timeout == 0
          || (config.poll_interval == 0 || (ltb config.timeout config.poll_interval || not fits)))
    then err invalid_config
    else wait_loop polls 0 none config.confirmations reads
