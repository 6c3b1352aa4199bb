-- ===== src/Consensus/Wire/Grammar.antt =====
-- The protobuf wire format that the walks read, independent of the reader, and the messages that a
-- transaction nests (crates/quai-consensus/src/lib.rs).
pub mod Numbers
pub mod Nesting
pub mod Reads
pub mod Preflight
use quai_rust_sdk.Prelude.{
  ℕ, suc, ◌+◌, ◌*◌, ◌%◌, ◌^◌, ◌≤◌, ◌<◌, ◌≡◌, ◌⊎◌, List, [], ◌∷◌, ◌++◌, length, Option, none, some,
}
use quai_rust_sdk.Consensus.Wire.{
  WireKind, transaction, access_list, access_tuple, hash, inputs, input, out_point, outputs, output,
  Field,
}

-- Seven bits a byte, the least first; every byte but the last has its high bit set.
pub data IsVarint : List ℕ → ℕ → Type 0 where
  last : (b : ℕ) → b < 128 → IsVarint (b ∷ []) b
  more :
      (b : ℕ) (bs : List ℕ) (n : ℕ)
      → 128 ≤ b
      → IsVarint bs n
      → IsVarint (b ∷ bs) (b % 128 + 128 * n)

-- A varint of at most ten bytes and 64 bits.
abbrev pub IsNumber : List ℕ → ℕ → Type 0
IsNumber bytes n = IsVarint bytes n × (length bytes ≤ 10) × (n < 2 ^ 64)

-- The value of a field, by its wire type: a varint, eight bytes or four, or a length and as many bytes.
abbrev pub IsValue : ℕ → List ℕ → Option (List ℕ) → Type 0
IsValue wire_type bytes none =
    ((wire_type ≡ 0) × (n : ℕ) × IsNumber bytes n)
    ⊎ (((wire_type ≡ 1) × (length bytes ≡ 8)) ⊎ ((wire_type ≡ 5) × (length bytes ≡ 4)))
IsValue wire_type bytes (some part) =
    (wire_type ≡ 2) × (size : List ℕ) × IsNumber size (length part) × (bytes ≡ size ++ part)

-- The bytes start with a field: a key, which has the tag above the three bits of the wire type, and
-- a value.
pub record IsField (bytes : List ℕ) (f : Field) : Type 0 where
  pub wire_type : ℕ
  pub key : List ℕ
  pub value : List ℕ
  pub split : bytes ≡ key ++ (value ++ f.rest)
  pub number : IsNumber key (f.tag * 8 + wire_type)
  pub positive : 1 ≤ f.tag
  pub typed : IsValue wire_type value f.part

-- The messages that each message nests, by tag.
abbrev pub IsChild : WireKind → ℕ → WireKind → Type 0
IsChild transaction tag c =
    ((tag ≡ 9) × (c ≡ access_list))
    ⊎ (((tag ≡ 13) × (c ≡ hash))
        ⊎ (((tag ≡ 15) × (c ≡ inputs))
            ⊎ (((tag ≡ 16) × (c ≡ outputs))
                ⊎ (((tag ≡ 19) × (c ≡ hash)) ⊎ ((tag ≡ 20) × (c ≡ hash))))))
IsChild access_list tag c = (tag ≡ 1) × (c ≡ access_tuple)
IsChild access_tuple tag c = (tag ≡ 2) × (c ≡ hash)
IsChild inputs tag c = (tag ≡ 1) × (c ≡ input)
IsChild input tag c = (tag ≡ 1) × (c ≡ out_point)
IsChild out_point tag c = (tag ≡ 1) × (c ≡ hash)
IsChild outputs tag c = (tag ≡ 1) × (c ≡ output)
IsChild hash tag c = ⊥
IsChild output tag c = ⊥

-- A field that nests no message.
abbrev pub IsOpaque : WireKind → Field → Type 0
IsOpaque kind f = (f.part ≡ none) ⊎ ((c : WireKind) → IsChild kind f.tag c → ⊥)

-- The bytes are the fields of a message of the kind, with `n` messages nested inside.
pub data Message : WireKind → List ℕ → ℕ → Type 0 where
  empty : (kind : WireKind) → Message kind [] 0
  plain :
      (kind : WireKind) (bytes : List ℕ) (f : Field) (n : ℕ)
      → IsField bytes f
      → IsOpaque kind f
      → Message kind f.rest n
      → Message kind bytes n
  nested :
      (kind : WireKind) (bytes : List ℕ) (f : Field) (c : WireKind) (part : List ℕ) (m n : ℕ)
      → IsField bytes f
      → f.part ≡ some part
      → IsChild kind f.tag c
      → Message c part m
      → Message kind f.rest n
      → Message kind bytes (suc (m + n))
