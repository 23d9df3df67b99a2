-- ===== src/Lib.antt =====
-- A model of the huntkey crate (src/lib.rs and the modules below it, and src/main.rs), a library
-- for a sovereign identity protocol on Ethereum, and the theorems that it keeps.
--
-- The parts. A key hierarchy (src/core/mod.rs) derives keys by role along BIP-32 paths. Four kinds
-- of message are hashed as EIP-712 typed data, signed, and verified by recovering the signer's
-- address: intents and delegation certificates (src/intents/mod.rs), session certificates
-- (src/sessions/mod.rs) and recovery requests (src/recovery/mod.rs). A tracker collects guardian
-- approvals of a recovery and runs a timelock. A watcher (src/monitor/mod.rs) turns on-chain events
-- into alerts, guardian notifications and a structured log, from which a dashboard is computed.
--
-- The files.
--   Prelude: what the others share: lists over native numbers, `u8`, `u32`, `u64` and
--     `u128` as ranges of natural numbers with the overflow rules of a debug and a release build,
--     bytes and big-endian integers, sets as lists without repetition, decimal text, and texts cut
--     at a separator (Prelude.Texts).
--   Crypto: the third-party crates as one record of operations (Keccak, k256, HKDF, BIP-32, BIP-39),
--     with what the code relies on: hashes have 32 bytes (IsHash), recovery undoes signing
--     (IsEcdsa). Crypto.Toy meets both. No theorem assumes that Keccak or HKDF has no
--     collisions: an injectivity theorem ends in equal messages or in a named colliding pair.
--   Core.Words, Core.Hash: `left_pad_32` to `call_data_hash` of src/core/mod.rs. Core.Hash.Binding
--     says what a typed data hash commits to. Core.Keys: `eth_address` to `KeyHierarchy`;
--     Core.Keys.WrapAround says what happens at the end of the 32-bit index.
--   Signing: `sign_hash` and `recover_hash` are the code that the four signing and the four recovery
--     functions repeat. Signing.Message is the interface of a kind of message, which Intents.Intent,
--     Intents.Delegation, Sessions and Recovery fill; Separation compares the kinds, and
--     Separation.Panics says when signing panics.
--   Eip712: the rules of EIP-712 as the standard states them, with the text of a type generated from
--     its members (Eip712.Structs); Eip712.Conformance compares the code's hashes with them.
--   Intents.Intent, Intents.Delegation, Intents.UserOperation: src/intents/mod.rs. The setters of
--     `UserOperationBuilder` are `set_nonce`, `set_call_data` and so on. Intents.UserOperation.Laws
--     reads a built operation as the EntryPoint of ERC-4337 version 0.7 does.
--   Sessions, Recovery: src/sessions/mod.rs and src/recovery/mod.rs. Recovery.GuardianSet is the
--     abstract set of approvals, a quotient of lists, and Recovery.Refinement relates the tracker
--     to it.
--   Monitor.Watcher, Monitor.Handlers, Monitor.EventLog, Monitor.Dashboard: src/monitor/mod.rs.
--     `EventLog::record` is `record_entry`. A handler returns the new watcher and the alert. `alerts`,
--     `entries`, `event_log` and `action_index` are fields. Monitor.Handlers.Trace runs any sequence
--     of registrations, events and drains. Below it, Outputs says what one event adds to the state,
--     Records what a run writes to the log, Snapshots what the dashboard then counts, Exports what
--     the exported text tells of a run, Soundness which notifications are sent, and Views and
--     Isolation what a run shows of one identity. Monitor.Interface is the whole public interface of
--     the watcher, with `clear_alerts`, the changes through `event_log_mut` and the questions, and
--     its children compare the answers with a description by the history of the calls.
--     Monitor.EventLog.Metadata and Injective read the text of the log back, and
--     Monitor.Dashboard.Export that of the dashboard. `hex::encode` is a parameter, with its promise
--     in IsHex: its text determines the bytes and has no quote.
--   Demo: the signing chain and the recovery that src/main.rs runs with fixed inputs. Demo.Legacy:
--     the BIP-44 keys that it lists first. Demo.Program: the whole of `main`, from the entropy on.
--   WasmApi: src/wasm_api/mod.rs. A `Result` is a data type, and a panic around it is `none`.
--     WasmApi.RoundTrip states what the text formats of the crates promise (IsCodec, WritesObjects)
--     and reads a JSON object by its names.
--   CrateTests: the tests of src/lib.rs, as functions of the root key, the generated numbers and
--     `hex::encode`. An assertion that fails is a panic. Proptests, Flows, Binding, Deriving,
--     Watching, Logging and Building are the tests. Passing, Chains and Separate say that tests pass
--     whatever the root, EndToEnd, RecoveryFlow, Derived and SessionKeys which assertions can fail,
--     and Watched, Logged and Built that the tests at fixed inputs pass.
--   Tests: the models at concrete inputs.
--
-- Conventions. A byte is a natural number and an array a list of bytes; that a value fits its Rust
-- type is a hypothesis (IsValid of each message, IsArray, IsU64). A panic (`expect`, a slice out of
-- range, an overflow in a debug build) is `none`. A `&mut self` method takes and returns the state.
-- The loops run over lists, and are structural recursion. Only decimal printing (Prelude.Decimal)
-- has fuel, 39 digits, enough for every `u128`: `codes-to_decimal_inj` shows that no two of them
-- print alike.
--
-- Not modelled. Zeroizing of secrets, which no value shows. The text that src/main.rs prints. The
-- Solidity contracts and the TypeScript SDK, which are other programs. Of the
-- tests in src/lib.rs, the vectors of bip39 and BIP-32, which are facts of those crates, and the
-- tests that a function returns the same twice, which hold of every function.
pub mod Prelude
pub mod Crypto
pub mod Core
pub mod Signing
pub mod Intents
pub mod Sessions
pub mod Recovery
pub mod Monitor
pub mod Separation
pub mod Eip712
pub mod Demo
pub mod WasmApi
pub mod CrateTests
mod Tests
