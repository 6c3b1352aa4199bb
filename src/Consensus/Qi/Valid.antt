-- ===== src/Consensus/Qi/Valid.antt =====
-- What a valid Qi transaction is, said without the validator's loops and accumulators.
use quai_rust_sdk.Prelude.{
  ℕ, suc, ◌+◌, ◌*◌, ◌≤◌, ◌≡◌, ◌≢◌, List, [], ◌∷◌, map, length, get_or, All, replicate,
}
use quai_rust_sdk.Primitives.Bytes.{take, drop, from_be_bytes}
use quai_rust_sdk.Primitives.Hash.{zero_hash}
use quai_rust_sdk.Primitives.Shard.{Zone, byte}
use quai_rust_sdk.Primitives.Address.{Ledger, Address, quai, qi, ledger}
use quai_rust_sdk.Consensus.OutPoints.{OutPoint}
use quai_rust_sdk.Consensus.Qi.{
  QiMode, ordinary, conversion, wrapping, QiInput, QiOutput, QiTransaction,
  max_transaction_messages, max_transaction_bytes,
}

-- No element occurs twice.
abbrev pub IsDistinct {ℓ} : {A : Type ℓ} → List A → Type ℓ
IsDistinct [] = Unit
IsDistinct (x ∷ xs) = All (λ y. x ≢ y) xs × IsDistinct xs

-- The address is of the ledger and in the zone.
abbrev pub IsIn : Ledger → Zone → Address → Type 0
IsIn l z a = (ledger a ≡ l) × (byte z ≡ get_or a.bytes 0 0)

-- The addresses of a ledger, in the order of the outputs.
abbrev pub pick_address : Ledger → Ledger → Address → List Address → List Address
pick_address quai quai a rest = a ∷ rest
pick_address qi qi a rest = a ∷ rest
pick_address _ _ a rest = rest

abbrev pub addresses_of : Ledger → List QiOutput → List Address
addresses_of l [] = []
addresses_of l (o ∷ os) = pick_address (ledger o.address) l o.address (addresses_of l os)

-- The first byte is that of a published zone.
abbrev pub HasZone : QiOutput → Type 0
HasZone o = (z : Zone) × (byte z ≡ get_or o.address.bytes 0 0)

-- The outputs that a mode allows: an ordinary transfer has no account address; the others stay in
-- the zone and have one account address, in one output or more.
abbrev pub AreOutputs : QiMode → Zone → List QiOutput → Type 0
AreOutputs ordinary origin os = All HasZone os × (addresses_of quai os ≡ [])
AreOutputs _ origin os =
    All (λ o. byte origin ≡ get_or o.address.bytes 0 0) os
    × ((destination : Address) × (n : ℕ) × (addresses_of quai os ≡ replicate (suc n) destination))

-- The chain and the data that a mode allows.
abbrev pub IsModeData : QiMode → ℕ → List ℕ → Zone → Type 0
IsModeData ordinary chain_id payload origin = Unit
IsModeData wrapping chain_id payload origin =
    (chain_id ≢ 0) × (length payload ≡ 20) × IsIn quai origin (record { bytes = payload })
IsModeData conversion chain_id payload origin =
    (chain_id ≢ 0)
    × (length payload ≡ 22)
    × (30 ≤ from_be_bytes (take 2 payload))
    × (from_be_bytes (take 2 payload) ≤ 9000)
    × IsIn qi origin (record { bytes = drop 2 payload })

module _ {K : Type 0} (key_address : K → Address) where
  -- The input's hash is not zero and names the zone, and its key owns a Qi address there.
  abbrev pub IsInput : Zone → QiInput K → Type 0
  IsInput origin i =
      (get_or i.previous_output.transaction_hash 2 0 ≡ byte origin)
      × (i.previous_output.transaction_hash ≢ zero_hash)
      × IsIn qi origin (key_address i.public_key)

  abbrev pub points : List (QiInput K) → List OutPoint
  points = map (λ i. i.previous_output)

  -- No key of an input owns the address.
  abbrev pub IsFresh : List (QiInput K) → Address → Type 0
  IsFresh is a = All (λ i. key_address i.public_key ≢ a) is

  pub record IsValid (mode : QiMode) (tx : QiTransaction K) (origin : Zone) : Type 0 where
    pub some_inputs : tx.inputs ≢ []
    pub some_outputs : tx.outputs ≢ []
    pub messages : length tx.inputs * 3 + length tx.outputs + 3 ≤ max_transaction_messages
    pub size : length tx.payload ≤ max_transaction_bytes
    pub mode_data : IsModeData mode tx.chain_id tx.payload origin
    pub spends_once : IsDistinct (points tx.inputs)
    pub inputs : All (IsInput origin) tx.inputs
    pub outputs : AreOutputs mode origin tx.outputs
    pub pays_once : IsDistinct (addresses_of qi tx.outputs)
    pub no_reuse : All (IsFresh tx.inputs) (addresses_of qi tx.outputs)
