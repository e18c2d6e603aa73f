-- ===== src/Lib.antt =====
-- Verification of the core of krusty-kms, a key management library for Starknet and Bitcoin.
--
-- Parts and how they interact. The kms crate signs Bitcoin PSBTs: `sign_bitcoin_psbt_inputs`
-- decodes base64, parses the PSBT with the bounds-checked `Reader`, proves the amount of each
-- listed input from the previous transaction that the PSBT carries, signs the BIP-143 digest with
-- a low-R ECDSA signature and writes the PSBT back. The gateway crate derives, checks and deploys
-- accounts, signs hashes and messages, and answers account queries from a shared snapshot cache
-- that a non-decreasing clock drives; it tracks each call in a bounded store of operations. The
-- crypto crate proves knowledge of exponents, bits, ranges and balances over the Stark curve, and
-- verifies such proofs. The common crate has the error kinds and the ceilings that bound the fees
-- a wallet signs. The oracle crate reads requests line by line from a bounded reader.
--
-- Files and code.
--   Prelude, Prelude/*: names of the libraries, Boolean tests on ℕ, lists, little-endian bytes.
--   Common/Error: crates/common/src/error.rs, the error kinds and `Result`.
--   Common/Fee, Common/Fee/Ceiling: crates/common/src/fee.rs, `validate`, `admit`, `admit_estimate`.
--   Bitcoin/Parse, Bitcoin/Parse/Rules: functions that read from a `Reader`, and the two rules used for
--     all of them: what a success has consumed (Consumes), and what input is accepted (Accepts).
--   Bitcoin/Reader, Bitcoin/Reader/*: crates/kms/src/bitcoin/tx.rs, `Reader`, `write_compact_size`,
--     `write_var_bytes`.
--   Bitcoin/Tx, Bitcoin/Tx/*: crates/kms/src/bitcoin/tx.rs, the transaction types, `parse_legacy`,
--     `parse_network`, `serialize_legacy`, `txid`, `sighash_midstate`, `p2wpkh_sighash_all`. The body of
--     `parse_network` is cut into network_body, read_marker, network_rest, skip_witness and skip_stacks.
--   Bitcoin/Keys: crates/kms/src/bitcoin/keys.rs, `P2wpkhSigner` and `sign_low_r`;
--     Bitcoin/Keys/LowR: what its signatures are.
--   Bitcoin/Psbt/Fields, Der, Checks: crates/kms/src/bitcoin/psbt/fields.rs, the field table and the
--     checks of a pair's key and value.
--   Bitcoin/Psbt/Pairs: the maps of crates/kms/src/bitcoin/psbt.rs, and psbt/input_rules.rs.
--   Bitcoin/Psbt/Spent, Read, Sign: crates/kms/src/bitcoin/psbt.rs, `Psbt::parse`, `Psbt::serialize`,
--     `checked_indices`, `signable_amount` and `sign_with`; `sign_psbt` is `sign_with` between decoding
--     and encoding, `sign_input` the body of its loop.
--   Bitcoin/Bech32, Bitcoin/Bech32/Total: crates/kms/src/bitcoin/bech32.rs, `encode_segwit_v0`.
--   Bitcoin/Bip322, Bitcoin/Bip322/Binding: crates/kms/src/bitcoin/bip322.rs, `sign_bip322_simple`.
--   Bitcoin/Psbt/Maps, RoundTrip, Putting, Signing, Amounts: proofs on these.
--   Gateway/Clock, Gateway/Clock/Monotonic: crates/gateway/src/clock.rs, `advance` and `now_ms`.
--   Gateway/Snapshot, Gateway/Snapshot/*: crates/gateway/src/snapshot_cache.rs, the lookup, the stale
--     fallback and the metadata that is shown.
--   Gateway/Cache, Gateway/Cache/*: the keys and the order of the cache, and `store_snapshot` of
--     crates/gateway/src/snapshot.rs, whose eviction loop is `evict_front`.
--   Gateway/Operations, Gateway/Operations/*: crates/gateway/src/operations.rs and the retention policy of
--     crates/gateway/src/types.rs.
--   Gateway/Errors: crates/gateway/src/errors.rs.
--   Gateway/System: the traits of crates/gateway/src/backend/interface.rs and crates/gateway/src/types.rs,
--     the clock, entropy, and the functions of the kms crate that the gateway calls, as records.
--   Gateway/Validation, Gateway/Runtime, Gateway/Runtime/*: crates/gateway/src/gateway.rs. `tracked`,
--     `require`, `refuse` and `finish` are the steps that every handler shares.
--   Gateway/Query, Gateway/Accounts, Gateway/Signing: the handlers of crates/gateway/src/snapshot.rs,
--     accounts.rs and signing.rs; `query_snapshot`, `derive`, `check_account`, `deploy`, `sign_request`.
--   Gateway/AccountClass, Gateway/AccountClass/Allowed: crates/gateway/src/account_class.rs.
--   Kms/AccountClass: crates/kms/src/account_class/argent.rs and braavos.rs, their class hashes.
--   Gateway/Handled, Gateway/Authorized, and their folders: proofs on the handlers.
--   Gateway/Serving: requests one after the other, as crates/oracle/src/handler.rs dispatches them.
--   Gateway/Interleaving: accesses of concurrent calls to the guarded stores.
--   Domain, Domain/*: crates/domain/src/error.rs, account.rs, runtime.rs, signing.rs, and the texts of
--     primitives.rs as what they stand for: a felt, bytes.
--   Prelude/Assoc: hash maps as association lists.
--   Oracle/LineReader: crates/oracle/src/line_reader.rs, `read_line_limited` over the list of the
--     buffers that `fill_buf` gives. LineReader/Chunking, LineReader/Lines: proofs on it.
--   Common/Amount, Common/Amount/*: crates/common/src/amount.rs, checked arithmetic and decimal text;
--     Common/Decimal, Common/Decimal/*: the operations of the standard library on text that it uses.
--   Crypto/Scalar: crates/crypto/src/scalar.rs; a felt is a number below the prime of the field.
--   Crypto/Curve, Crypto/Curve/*: crates/crypto/src/curve.rs and the points of crates/common/src/types.rs.
--     `mul` is the double-and-add loop; Curve/Group has multiples of points, Curve/Affine coordinates.
--   Crypto/Hash: crates/crypto/src/hash.rs, the challenges.
--   Crypto/Poe, Poe2, Elgamal, Bit, Range, Audit, and their folders: the files of crates/crypto/src with
--     these names, a prover and a verifier each; Accepting has which proofs are accepted, Producing when
--     one is returned, and Range/Stepping both loops over the bits in step.
--     `verify_poe2`, `verify_bit`, `verify_range` and `verify_audit` are the `verify` of their files.
--   Common/Tests, Crypto/Tests, Oracle/Tests, Bitcoin/Tests, Gateway/Tests: runs on concrete values.
--
-- How the code is read. A byte is a number, `AllBytes` says that each is below 256. A reader's state is
-- the bytes not yet read; a reader is not used after an error, so an error carries no state. A writer
-- is the bytes that it pushes. An error is its kind, without its text. `usize_max` is `usize::MAX` of the
-- target. What other crates compute (hashes, SEC1 keys, ECDSA, DER, base64) is the record
-- Bitcoin/External, a parameter of what uses it; the float scaling of fee estimates and the test of
-- `String::from_utf8` are parameters too. An `Instant` is its number of nanoseconds.
--
-- Points and their operations, the coordinates of a point, its negation and the two hashes come from
-- another crate and are the record Crypto/Curve.Curve; `IsGroup` has the laws that are used of them,
-- among them that exactly the identity has no coordinates. Crypto/Tests/Cyclic is an instance of both.
-- What a prover draws at random is an argument of it. Where a verifier compares coordinates it fails on
-- the point at infinity, so what is said of an honest proof has that case apart.
--
-- A handler of the gateway is a function of the gateway's state and of the state of all that lies
-- outside, which answers calls; none stands for a run that does not end. A lock is held for one access.
-- The order of equal keys in a sort, and of a hash map, is the list's.
--
-- Loops and fuel. `for _ in 0..count` is recursion on the count. The loop of `read_map` runs on fuel,
-- one more than the number of bytes left: each round but the last reads at least one byte.
-- Low-R grinding recurses on the attempts left. The inner loop of `to_base32` takes five bits a round,
-- so its bits are enough as fuel. A `u128` has at most 39 digits, the fuel of `to_string`.
--
-- Not modelled: wiping of secrets, `Debug`, BIP-32 and BIP-39 derivation,
-- the OpenZeppelin manifest and the guardians of account classes, the waiting loop of the gateway's
-- backend, the random source, constant-time selection as such, the Starknet client, the SDK's
-- operations over the proofs, the experimental games, and the bindings. They are data carriers, input
-- and output, library calls, or left for extension of this library.
mod Prelude
pub mod Common
pub mod Crypto
pub mod Domain
pub mod Kms
pub mod Bitcoin
pub mod Gateway
pub mod Oracle
