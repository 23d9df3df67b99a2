-- ===== src/Intents.antt =====
-- src/intents/mod.rs: intents, delegation certificates, and ERC-4337 user operations.
pub mod Intent
pub mod Delegation
pub mod UserOperation
