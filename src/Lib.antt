-- ===== src/Lib.antt =====
-- The Quai SDK: a model of its core logic, with proofs.
--
-- The repository is a Rust SDK for the Quai account ledger and the Qi ledger of unspent outputs. Its
-- primitives crate gives zones, addresses, amounts and byte encodings. Its consensus crate checks
-- and builds Qi transactions, among them the envelopes that convert or wrap Qi, and guards the
-- decoding of wire bytes. Its wallet crate selects the coins that a Qi transaction spends and hands
-- out fresh addresses. Its provider crate reads a node, follows the head of a zone's chain and
-- confirms receipts.
--
-- Prelude: shared names, tests on numbers, lists, checked words, and Rust's `Result` with the `?`
-- operator.
--
-- crates/quai-primitives/src:
--   Primitives.Shard: shard.rs. An or-pattern of texts is `one_of`.
--   Primitives.Address: address.rs, the ledger bit and the zone byte. The two address types that one
--     macro declares are one record with the ledger as an argument.
--   Primitives.Amount: amount.rs, the parsers, with a text as its bytes.
--   Primitives.Hash: hash.rs, the type and its equality.
--   Primitives.Bytes: the standard library's slices and big-endian integers, as the crates use
--     them.
--   Primitives.Encoding and Primitives.Twos: encoding.rs, hexadecimal text, slices and padding, and
--     two's complement.
--   Primitives.Fixed: fixed.rs, fixed-point numbers with their rounding policies, arithmetic and bytes.
--     Encoded has the bytes and Wrapping the operations that wrap; a panic of
--     `expect` is a missing answer of `to_bytes`.
--
-- crates/quai-consensus/src:
--   Consensus.Error: lib.rs, `TransactionError`.
--   Consensus.Denomination and Consensus.OutPoints: qi.rs, `Denomination` and `OutPoint`.
--   Consensus.Qi: qi.rs, a Qi transaction and its validator in its three modes. Valid says what a
--     valid transaction is, and Inputs, Outputs, Sizes and Exact compare the validator with it.
--   Consensus.Envelopes: conversion.rs and wrapping.rs, the intents, the constructors and the
--     classifiers of envelopes; Parts has what both share.
--   Consensus.Discount: conversion.rs, the hold windows and the discount of a batch.
--   Consensus.Wire: the preflight walk over protobuf bytes (lib.rs), and Scan, the search for inputs
--     before a message is signed (lib.rs); Agreement relates the two readers. Grammar is the wire
--     format and the table of nested messages, written without the readers.
--
-- crates/quai-wallet/src, selection.rs and selection/aggregation.rs, in Wallet.Selection:
--   Types: `CandidateCoin`, `SelectionRequest`, `CoinSelection`, `SelectionError`.
--   Denominate: `denominate_available`, `denominate_largest`, `preserves_denominations`.
--   Bucket: `validate_request` and `validate_and_bucket`.
--   Choose: `choose`, `select_fewest`, `select_fewest_converting`, `select_with_fee`.
--   Divide: the division loop of aggregating outputs.
--   Aggregate: `select_aggregate`, its two range loops with the index panic as an outcome.
--   Sweep: `select_sweep`, which dispatches to aggregation or spends every eligible coin.
--
-- crates/quai-wallet/src, the rest:
--   Wallet.Metadata: metadata.rs, storage errors and public addresses, and the account of hd.rs.
--   Wallet.Allocation: allocation.rs, the journal of allocated addresses. Journal has lists of
--     allocations that stay apart, Book the invariant, and History the books over any calls.
--
-- crates/quai-provider/src:
--   Provider.Types: lib.rs and types.rs, decoded headers and their checks, and the node as a poll
--     sees it.
--   Provider.HeadTracker: head_tracker.rs, with the anchors newest first, and State: its persisted
--     bytes, head_tracker/state.rs.
--     Chain and Replay are about the anchors, Seen and Answers about what the node answered.
--   Provider.Confirmation: confirmation.rs and wait.rs, the poll over five reads and the wait for a
--     receipt around it.
--
-- How the parts meet: a `Zone` of the primitives is what the tracker's state, the validator's
-- addresses and the outpoints are about; the denominations and outpoints of the consensus crate are
-- what coin selection counts and draws; the envelopes build a transaction and run the validator on
-- it.
--
-- A U256, a `Wide`, a u64 and a byte are native numbers. Checked additions are written with their
-- bound, and the counts of an inventory wrap at 2 ^ 64, the unchecked sums of aggregation at 2 ^
-- 256. A fixed array is a list, and a hash set is the list of what was inserted.
--
-- Parameters. The fee estimator of `select_with_fee` is the caller's code: a function of the number
-- of calls before and of the selection, which may fail. The answers of a node are a parameter of a
-- poll: raw values that JSON code decodes to headers, so a node may answer anything and change
-- between reads. A public key is any type with a function to its address, since elliptic curves are
-- third-party code; an account derives its children by a function for the same reason. The deadline
-- of a wait is the number of polls before it.
--
-- Fuel. A loop that stops when `max_outputs` or `max_inputs` is reached recurs on the room that is
-- left, which is the number that the source compares with the length of its result, and the
-- splitting loop recurs on the rounds of its range. The walk and the scan over wire bytes take the
-- number of bytes as fuel, which is enough because each round takes at least one.
--
-- Not modelled: network transports, storage, cryptography with keys and signatures, Base64 and
-- Base58, generated wire code with the records it encodes, account transactions, payment channels,
-- the bytes of the journal and its backups, the waits for transactions, and the browser bindings.
-- Hash functions and signatures are third-party code.
pub mod Prelude
pub mod Primitives
pub mod Provider
pub mod Consensus
pub mod Wallet
