-- ===== src/Sessions.antt =====
-- crates/booth-bin/src/observability.rs: call sessions and the status that are read off the telemetry.
pub mod Events
pub mod Tracker
pub mod Heartbeat
pub mod Bracketed
pub mod Chains
pub mod Runs
mod Examples
