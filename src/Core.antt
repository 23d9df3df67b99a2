-- ===== src/Core.antt =====
-- src/core/mod.rs: ABI words, hashes, and the key hierarchy.
pub mod Words
pub mod Hash
pub mod Keys
