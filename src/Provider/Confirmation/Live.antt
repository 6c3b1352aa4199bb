-- ===== src/Provider/Confirmation/Live.antt =====
-- Over a node that answers from one chain per poll, the wait ends once the receipt is deep enough.
use quai_rust_sdk.Prelude.{
  ℕ, zero, suc, ◌+◌, ◌-◌, ◌^◌, ◌≤◌, ◌<◌, ◌==◌, ◌≡◌, refl, sym, ap, subst, ◌∙◌, ◌⊎◌, inl, inr, arith,
  ltb, leb, le→not_ltb, leb→le, not_leb→lt, Bool, Bool-cases, true, false, not, ◌||◌, if◌then◌else◌,
  Option, none, some, ok, err, ◌>>=◌, ok_or, if_true, if_false,
}
use quai_rust_sdk.Prelude.Words.{checked_add}
use quai_rust_sdk.Primitives.Hash.{Hash, bytes_eq, bytes_eq_refl}
use quai_rust_sdk.Provider.Types.{invalid_result, ZoneHeader}
use quai_rust_sdk.Provider.Confirmation.{
  Inclusion, Receipt, ConfirmedReceipt, Reads, Confirmation, inclusion_eq, has_hash, check_head,
  check_again, check_block, check_depth, after_receipt, confirmation_poll, after_poll, wait_loop,
  WaitConfig, wait_for_receipt,
}
use quai_rust_sdk.Provider.Confirmation.Sound.{IsConfirmed, confirmation_poll-IsConfirmed}

-- A chain as a node sees it at one time.
pub record Chain : Type 0 where
  pub receipt : Option Receipt
  pub headers : ℕ → Option ZoneHeader
  pub head : ZoneHeader

-- The answers of a poll that reads only this chain.
unfoldable pub answers : Chain → Reads
answers chain = record {
  first_receipt = ok chain.receipt;
  latest_header = ok (some chain.head);
  block_header = λ n. ok (chain.headers n);
  second_receipt = ok chain.receipt;
  head_header = λ n. ok (chain.headers n);
}

-- The receipt is in a block of the chain, at least `required` deep counting its own.
pub record IsSettled (required : ℕ) (chain : Chain) : Type 0 where
  pub receipt : Receipt
  pub block : ZoneHeader
  pub known : chain.receipt ≡ some receipt
  pub tip : chain.headers chain.head.number ≡ some chain.head
  pub included : chain.headers receipt.inclusion.block_number ≡ some block
  pub by_hash : block.hash ≡ receipt.inclusion.block_hash
  pub deep : receipt.inclusion.block_number + required ≤ chain.head.number + 1

-- A height is below the largest u64.
abbrev pub IsSized : Chain → Type 0
IsSized chain = chain.head.number + 1 < 2 ^ 64

-- A result that is no error.
abbrev IsQuiet : Confirmation → Type 0
IsQuiet r = (o : Option ConfirmedReceipt) × (r ≡ ok o)

if-IsQuiet : (b : Bool) (x y : Confirmation) → IsQuiet x → IsQuiet y → IsQuiet (if b then x else y)
if-IsQuiet true x y h k = h
if-IsQuiet false x y h k = k

quiet : (o : Option ConfirmedReceipt) → IsQuiet (ok o)
quiet o = (o, refl)

depth_fits : (a b : ℕ) → a + 1 < 2 ^ 64 → checked_add 64 (a - b) 1 ≡ some (a - b + 1)
depth_fits a b h = ground arith

check_again-IsQuiet :
    (chain : Chain) (seen : Receipt) (n : ℕ) (head : ZoneHeader) (o : Option Receipt)
    → IsQuiet (check_again (answers chain) seen n head o)
unfolding answers
check_again-IsQuiet chain seen n head none = quiet none
check_again-IsQuiet chain seen n head (some latest) =
    if-IsQuiet (inclusion_eq latest.inclusion seen.inclusion) _ _
      (if-IsQuiet (has_hash head.hash (chain.headers head.number)) _ _ (quiet _) (quiet none))
      (quiet none)

check_depth-IsQuiet :
    (required : ℕ) (chain : Chain) (seen : Receipt)
    → IsSized chain
    → IsQuiet (check_depth required (answers chain) seen (some chain.head))
unfolding answers
check_depth-IsQuiet required chain seen sized =
    let block = seen.inclusion.block_number in
    let n = chain.head.number - block + 1 in
    if-IsQuiet (ltb chain.head.number block) _ _ (quiet none) (
      subst
        (λ (o : Option ℕ). IsQuiet (
          ok_or o invalid_result >>= λ confirmations.
          if ltb confirmations required
          then ok none
          else check_block (answers chain) seen confirmations chain.head))
        (sym (depth_fits chain.head.number block sized))
        (if-IsQuiet (ltb n required) _ _ (quiet none) (
          if-IsQuiet (has_hash seen.inclusion.block_hash (chain.headers block)) _ _
            (check_again-IsQuiet chain seen n chain.head chain.receipt) (quiet none))))

poll_lem :
    (required : ℕ) (last : Option Inclusion) (reads : Reads)
    → 0 < required
    → confirmation_poll required last reads ≡ after_receipt required last reads reads.first_receipt
unfolding confirmation_poll
poll_lem required last reads h = if_false (required == 0) _ _ (ground arith)

poll-IsQuiet :
    (required : ℕ) (last : Option Inclusion) (chain : Chain)
    → 0 < required
    → IsSized chain
    → IsQuiet (confirmation_poll required last (answers chain)).1
unfolding answers
poll-IsQuiet required last chain positive sized =
    subst (λ (p : Option Inclusion × Confirmation). IsQuiet p.1)
      (sym (poll_lem required last (answers chain) positive)) (by_receipt chain.receipt)
  where
    by_receipt :
        (o : Option Receipt) → IsQuiet (after_receipt required last (answers chain) (ok o)).1
    by_receipt none = quiet none
    by_receipt (some seen) = check_depth-IsQuiet required chain seen sized

inclusion_eq_refl : (i : Inclusion) → inclusion_eq i i ≡ true
inclusion_eq_refl i = ground (arith, bytes_eq_refl i.block_hash)

has_hash_lem :
    (header : ZoneHeader) (o : Option ZoneHeader) (hash : Hash)
    → o ≡ some header
    → header.hash ≡ hash
    → has_hash hash o ≡ true
has_hash_lem header o hash e h =
    ap (has_hash hash) e ∙ ap (λ (x : Hash). bytes_eq x hash) h ∙ bytes_eq_refl hash

-- A settled receipt is confirmed by the poll.
settled_poll :
    (required : ℕ) (last : Option Inclusion) (chain : Chain)
    → 0 < required
    → IsSized chain
    → IsSettled required chain
    → (c : ConfirmedReceipt) × ((confirmation_poll required last (answers chain)).1 ≡ ok (some c))
unfolding answers
settled_poll required last chain positive sized s = (built, start ∙ depth ∙ place ∙ again ∙ tip)
  where
    seen : Receipt
    seen = s.receipt

    block : ℕ
    block = seen.inclusion.block_number

    n : ℕ
    n = chain.head.number - block + 1

    built : ConfirmedReceipt
    built = record { receipt = seen; confirmations = n; observed_head = chain.head }

    start :
        (confirmation_poll required last (answers chain)).1
        ≡ check_depth required (answers chain) seen (some chain.head)
    start =
        ap (λ (p : Option Inclusion × Confirmation). p.1)
          (poll_lem required last (answers chain) positive)
        ∙ ap (λ (o : Option Receipt). (after_receipt required last (answers chain) (ok o)).1)
            s.known

    depth :
        check_depth required (answers chain) seen (some chain.head)
        ≡ check_block (answers chain) seen n chain.head
    depth =
        if_false (ltb chain.head.number block) _ _
          (le→not_ltb block chain.head.number (omega (arith, s.deep, positive)))
        ∙ ap
            (λ (o : Option ℕ). ok_or o invalid_result >>= λ confirmations.
              if ltb confirmations required
              then ok none
              else check_block (answers chain) seen confirmations chain.head)
            (depth_fits chain.head.number block sized)
        ∙ if_false (ltb n required) _ _ (le→not_ltb required n (omega (arith, s.deep)))

    place :
        check_block (answers chain) seen n chain.head
        ≡ check_again (answers chain) seen n chain.head (some seen)
    place =
        if_true (has_hash seen.inclusion.block_hash (chain.headers block)) _ _ (
          has_hash_lem s.block (chain.headers block) seen.inclusion.block_hash s.included s.by_hash)
        ∙ ap (check_again (answers chain) seen n chain.head) s.known

    again :
        check_again (answers chain) seen n chain.head (some seen)
        ≡ check_head (answers chain) seen n chain.head
    again =
        if_true (inclusion_eq seen.inclusion seen.inclusion) _ _ (inclusion_eq_refl seen.inclusion)

    tip : check_head (answers chain) seen n chain.head ≡ ok (some built)
    tip =
        if_true (has_hash chain.head.hash (chain.headers chain.head.number)) _ _
          (has_hash_lem chain.head (chain.headers chain.head.number) chain.head.hash s.tip refl)

-- A confirmation that one of the polls up to the `k`-th gave.
abbrev pub IsAnswer : ℕ → (ℕ → Reads) → ℕ → ConfirmedReceipt → Type 0
IsAnswer required reads k c = (j : ℕ) × (j ≤ k) × IsConfirmed required (reads j) c

wait_loop-IsAnswer :
    (polls i k required : ℕ) (last : Option Inclusion) (chains : ℕ → Chain)
    → 0 < required
    → ((j : ℕ) → IsSized (chains j))
    → IsSettled required (chains k)
    → i ≤ k
    → k < i + polls
    → (c : ConfirmedReceipt) × (wait_loop polls i last required (λ j. answers (chains j)) ≡ ok c)
      × IsAnswer required (λ j. answers (chains j)) k c
unfolding wait_loop
wait_loop-IsAnswer zero i k required last chains positive sized settled from until =
    absurd (omega arith)
wait_loop-IsAnswer (suc polls) i k required last chains positive sized settled from until =
    by_result (confirmation_poll required last (reads i)) refl
      (poll-IsQuiet required last (chains i) positive (sized i))
      (λ next more.
        wait_loop-IsAnswer polls (suc i) k required next chains positive sized settled more
          (omega arith))
  where
    reads : ℕ → Reads
    reads j = answers (chains j)

    by_result :
        (p : Option Inclusion × Confirmation)
        → confirmation_poll required last (reads i) ≡ p
        → IsQuiet p.1
        → ((next : Option Inclusion)
            → suc i ≤ k
            → (c : ConfirmedReceipt) × (wait_loop polls (suc i) next required reads ≡ ok c)
              × IsAnswer required reads k c)
        → (c : ConfirmedReceipt) × (after_poll
              (λ next. wait_loop polls (suc i) next required reads)
              p
            ≡ ok c)
          × IsAnswer required reads k c
    by_result (next, ok (some c)) e _ rest =
        let known = ap (λ (p : Option Inclusion × Confirmation). p.1) e in
        (c, refl, (i, from, (confirmation_poll-IsConfirmed required last (reads i) c known).1))
    by_result (next, ok none) e _ rest = rest next (later (Bool-cases (leb k i)))
      where
        later : ((leb k i ≡ true) ⊎ (leb k i ≡ false)) → suc i ≤ k
        later (inl h) =
            let same : k ≡ i = omega (arith, leb→le k i h, from) in
            let (c, settled_now) =
              settled_poll required last (chains i) positive (sized i)
                (subst (λ (t : ℕ). IsSettled required (chains t)) same settled) in
            cc (settled_now, ap (λ (p : Option Inclusion × Confirmation). p.1) e)
        later (inr h) = not_leb→lt k i h
    by_result (next, err why) e (o, h) rest = cc

-- A configuration that the wait accepts.
abbrev pub IsConfig : WaitConfig → Type 0
IsConfig config =
    (0 < config.confirmations)
    × (0 < config.poll_interval)
    × (config.poll_interval ≤ config.timeout)

config_lem :
    (config : WaitConfig)
    → IsConfig config
    → (config.confirmations == 0
        || (config.timeout == 0
            || (config.poll_interval == 0
                || (ltb config.timeout config.poll_interval || not true))))
      ≡ false
config_lem config (a, b, c) = ground arith

-- A wait with a valid configuration ends with a confirmed receipt when the node answers each poll
-- from one chain and at one of the polls before the deadline the receipt is settled; the receipt is
-- what that poll or an earlier one confirmed.
pub wait_for_receipt_returns :
    (polls k : ℕ) (config : WaitConfig) (chains : ℕ → Chain)
    → IsConfig config
    → ((j : ℕ) → IsSized (chains j))
    → IsSettled config.confirmations (chains k)
    → k < polls
    → (c : ConfirmedReceipt) × (wait_for_receipt true polls config (λ j. answers (chains j)) ≡ ok c)
      × IsAnswer config.confirmations (λ j. answers (chains j)) k c
unfolding wait_for_receipt
wait_for_receipt_returns polls k config chains valid sized settled before =
    let (c, e, answer) =
      wait_loop-IsAnswer polls 0 k config.confirmations none chains valid.0 sized settled
        (omega arith) (omega arith) in
    (c, if_false _ _ _ (config_lem config valid) ∙ e, answer)
