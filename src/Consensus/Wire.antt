-- ===== src/Consensus/Wire.antt =====
-- The walks over protobuf bytes before decoding and before signing
-- (crates/quai-consensus/src/lib.rs). Bytes are below 256; a `|` of disjoint bits is a sum.
-- The fuel of a walk is the number of bytes, since every field takes at least one.
pub mod Fields
pub mod Messages
pub mod Scan
pub mod Varints
pub mod Agreement
pub mod Grammar
use quai_rust_sdk.Prelude.{
  ℕ, zero, suc, ◌+◌, ◌*◌, ◌/◌, ◌%◌, ◌^◌, ◌==◌, leb, ltb, Bool, true, false, ◌&&◌, ◌||◌,
  if◌then◌else◌, List, [], ◌∷◌, length, Option, none, some, Result, ok, err, ◌>>=◌, ◌>>◌, reject_if,
  ok_or,
}
use quai_rust_sdk.Prelude.Words.{checked_add}
use quai_rust_sdk.Primitives.Bytes.{take, drop}
use quai_rust_sdk.Consensus.Error.{TransactionError, too_large, invalid_encoding}
use quai_rust_sdk.Consensus.Qi.{max_transaction_messages}

pub data WireKind : Type 0 where
  transaction access_list access_tuple hash inputs input out_point outputs output : WireKind

-- The nested `varint`: at most ten rounds, from the bit `shift` on.
unfoldable pub varint_loop : ℕ → ℕ → ℕ → List ℕ → Result TransactionError (ℕ × List ℕ)
varint_loop zero shift n bytes = err invalid_encoding
varint_loop (suc rounds) shift n [] = err invalid_encoding
varint_loop (suc rounds) shift n (b ∷ rest) =
    let sum = n + b % 128 * 2 ^ shift in
    reject_if (shift == 63 && ltb 1 b) invalid_encoding
    >> (if ltb b 128 then ok (sum, rest) else varint_loop rounds (shift + 7) sum rest)

abbrev pub varint : List ℕ → Result TransactionError (ℕ × List ℕ)
varint bytes = varint_loop 10 0 0 bytes

-- `bytes.get(n..)`
unfoldable pub skip : ℕ → List ℕ → Result TransactionError (List ℕ)
skip n bytes = if leb n (length bytes) then ok (drop n bytes) else err invalid_encoding

-- A field: its tag, what a length-delimited one holds, and the bytes behind it.
pub record Field : Type 0 where
  pub tag : ℕ
  pub part : Option (List ℕ)
  pub rest : List ℕ

-- What follows a key of the wire type 2. A length fits the usize.
unfoldable pub read_part : ℕ → List ℕ → Result TransactionError Field
unfolding varint_loop
read_part tag bytes = varint bytes >>= λ (len, body).
    if leb len (length body)
    then ok (record { tag = tag; part = some (take len body); rest = drop len body })
    else err invalid_encoding

-- What follows a key, by its wire type.
unfoldable pub read_value : ℕ → ℕ → List ℕ → Result TransactionError Field
unfolding varint_loop skip read_part
read_value tag wire_type bytes =
    if wire_type == 0
    then varint bytes >>= (λ (_, rest). ok (record { tag = tag; part = none; rest = rest }))
    else if wire_type == 1
    then skip 8 bytes >>= (λ rest. ok (record { tag = tag; part = none; rest = rest }))
    else if wire_type == 5
    then skip 4 bytes >>= (λ rest. ok (record { tag = tag; part = none; rest = rest }))
    else if wire_type == 2
    then read_part tag bytes
    else err invalid_encoding

unfoldable pub read_field : List ℕ → Result TransactionError Field
unfolding varint_loop read_value
read_field bytes = varint bytes >>= λ (key, rest).
    reject_if (key / 8 == 0) invalid_encoding >> read_value (key / 8) (key % 8) rest

-- The kind of the message that a field holds.
unfoldable pub child : WireKind → ℕ → Option WireKind
child transaction tag =
    if tag == 9
    then some access_list
    else if tag == 13 || (tag == 19 || tag == 20)
    then some hash
    else if tag == 15
    then some inputs
    else if tag == 16
    then some outputs
    else none
child access_list tag = if tag == 1 then some access_tuple else none
child access_tuple tag = if tag == 2 then some hash else none
child inputs tag = if tag == 1 then some input else none
child input tag = if tag == 1 then some out_point else none
child out_point tag = if tag == 1 then some hash else none
child outputs tag = if tag == 1 then some output else none
child hash tag = none
child output tag = none

-- The message that a field opens, with its kind.
abbrev pub with_child : List ℕ → Option WireKind → Option (WireKind × List ℕ)
with_child part none = none
with_child part (some c) = some (c, part)

abbrev pub opened : WireKind → ℕ → Option (List ℕ) → Option (WireKind × List ℕ)
opened kind tag none = none
opened kind tag (some part) = with_child part (child kind tag)

-- `budget.checked_sub(1)`
abbrev pub take_one : ℕ → Option ℕ
take_one zero = none
take_one (suc n) = some n

-- The recursive call on a nested message, which costs one of the budget.
abbrev pub enter :
    (WireKind → List ℕ → ℕ → Result TransactionError ℕ)
    → Option (WireKind × List ℕ)
    → ℕ
    → Result TransactionError ℕ
enter go none budget = ok budget
enter go (some (c, part)) budget = ok_or (take_one budget) too_large >>= go c part

-- The loop over the fields of a message; it answers the budget that is left.
unfoldable pub walk : ℕ → WireKind → List ℕ → ℕ → Result TransactionError ℕ
unfolding read_field child
walk fuel kind [] budget = ok budget
walk zero kind (b ∷ bs) budget = err invalid_encoding
walk (suc fuel) kind (b ∷ bs) budget = read_field (b ∷ bs) >>= λ f.
    enter (λ c part left. walk fuel c part left) (opened kind f.tag f.part) budget >>= λ left.
    walk fuel kind f.rest left

unfoldable pub preflight : List ℕ → WireKind → ℕ → Result TransactionError ℕ
unfolding walk
preflight bytes kind budget = ok_or (take_one budget) too_large >>= walk (length bytes) kind bytes
