-- ===== src/Monitor.antt =====
-- src/monitor/mod.rs: the identity watcher, its event log, and the dashboard.
pub mod EventLog
pub mod Watcher
pub mod Handlers
pub mod Dashboard
pub mod Interface
