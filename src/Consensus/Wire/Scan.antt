-- ===== src/Consensus/Wire/Scan.antt =====
-- The scan for transaction inputs before a message is signed (crates/quai-consensus/src/lib.rs).
use quai_rust_sdk.Prelude.{
  ℕ, zero, suc, ◌+◌, ◌*◌, ◌/◌, ◌%◌, ◌^◌, ◌==◌, ltb, Bool, false, ◌&&◌, ◌||◌, if◌then◌else◌, List,
  [], ◌∷◌, length, Option, none, some,
}
use quai_rust_sdk.Prelude.Words.{checked_add}
use quai_rust_sdk.Primitives.Bytes.{drop}

-- The lenient `varint`, from the byte `i` on: the value and how many bytes it took.
unfoldable pub lenient_loop : ℕ → ℕ → ℕ → List ℕ → Option (ℕ × ℕ)
lenient_loop zero i value bytes = none
lenient_loop (suc rounds) i value [] = none
lenient_loop (suc rounds) i value (b ∷ rest) =
    let sum = value + b % 128 * 2 ^ (7 * i) % 2 ^ 64 in
    if ltb b 128 then some (sum, suc i) else lenient_loop rounds (suc i) sum rest

abbrev pub lenient : List ℕ → Option (ℕ × ℕ)
lenient bytes = lenient_loop 10 0 0 bytes

-- How far a value reaches, with the depth and the finding behind it.
pub record Skip : Type 0 where
  pub bytes : ℕ
  pub depth : ℕ
  pub inputs : Bool

-- `Option::map` of a varint, and the sum that may overflow the usize.
abbrev pub skip_varint : ℕ → Bool → Option (ℕ × ℕ) → Option Skip
skip_varint depth inputs none = none
skip_varint depth inputs (some (_, used)) =
    some (record { bytes = used; depth = depth; inputs = inputs })

abbrev pub skip_total : ℕ → Bool → Option ℕ → Option Skip
skip_total depth inputs none = none
skip_total depth inputs (some total) =
    some (record { bytes = total; depth = depth; inputs = inputs })

abbrev pub skip_part : ℕ → ℕ → Bool → Option (ℕ × ℕ) → Option Skip
skip_part field depth inputs none = none
skip_part field depth inputs (some (size, used)) =
    skip_total depth (inputs || (field == 15 && depth == 0)) (checked_add 64 size used)

-- A group ends.
abbrev pub skip_end : ℕ → Bool → Option Skip
skip_end zero inputs = none
skip_end (suc outer) inputs = some (record { bytes = 0; depth = outer; inputs = inputs })

-- The match on the wire type. The depth is at most the number of bytes.
unfoldable pub skip_value : ℕ → ℕ → ℕ → Bool → List ℕ → Option Skip
unfolding lenient_loop
skip_value field wire_type depth inputs rest =
    if wire_type == 0
    then skip_varint depth inputs (lenient rest)
    else if wire_type == 1
    then some (record { bytes = 8; depth = depth; inputs = inputs })
    else if wire_type == 2
    then skip_part field depth inputs (lenient rest)
    else if wire_type == 3
    then some (record { bytes = 0; depth = suc depth; inputs = inputs })
    else if wire_type == 4
    then skip_end depth inputs
    else if wire_type == 5
    then some (record { bytes = 4; depth = depth; inputs = inputs })
    else none

-- The bytes, the depth and the finding behind one round; none where the scan answers false.
pub record State : Type 0 where
  pub bytes : List ℕ
  pub depth : ℕ
  pub inputs : Bool

abbrev pub after_skip : List ℕ → Option Skip → Option State
after_skip rest none = none
after_skip rest (some s) =
    if ltb (length rest) s.bytes
    then none
    else some (record { bytes = drop s.bytes rest; depth = s.depth; inputs = s.inputs })

abbrev pub after_key : State → Option (ℕ × ℕ) → Option State
after_key s none = none
after_key s (some (key, used)) =
    let rest = drop used s.bytes in
    if key / 8 == 0
    then none
    else after_skip rest (skip_value (key / 8) (key % 8) s.depth s.inputs rest)

unfoldable pub scan_round : State → Option State
unfolding lenient_loop skip_value
scan_round s = after_key s (lenient s.bytes)

-- Whether there is another round, and what it goes on with.
abbrev pub go_on : (State → Bool) → Bool → List ℕ → Option State → Bool
go_on next done [] round = done
go_on next done (b ∷ bs) none = false
go_on next done (b ∷ bs) (some s) = next s

-- The loop, on fuel that every round takes one of.
unfoldable pub scan : ℕ → State → Bool
unfolding scan_round
scan zero s = go_on (λ _. false) (s.inputs && s.depth == 0) s.bytes (scan_round s)
scan (suc fuel) s = go_on (λ t. scan fuel t) (s.inputs && s.depth == 0) s.bytes (scan_round s)

unfoldable pub has_transaction_inputs : List ℕ → Bool
unfolding scan
has_transaction_inputs bytes =
    scan (length bytes) (record { bytes = bytes; depth = 0; inputs = false })
