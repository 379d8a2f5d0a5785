-- ===== src/Forwarder.antt =====
-- crates/booth-bin/src/observability.rs: the event forwarder, from the telemetry bus to the operator and the spool.
pub mod Wire
pub mod Store
pub mod Task
pub mod Held
pub mod Spilled
pub mod Flushed
pub mod Replayed
pub mod Ingested
pub mod Kept
pub mod Runs
pub mod Ends
pub mod Emptied
pub mod Lossless
mod Examples
