-- ===== src/Tests.antt =====
-- Runs of the models of src/core, src/intents, src/sessions, src/recovery and src/monitor at
-- concrete inputs.
mod Signing
mod Keys
mod Recovery
mod Watcher
mod Log
mod Demo
mod Codecs
mod Wasm
mod WasmSigning
mod Kinds
mod Hex
mod Exports
mod Interface
mod Crate
