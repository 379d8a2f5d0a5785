-- ===== src/Operator.antt =====
-- crates/booth-bin/src/lib.rs: the booth's dealings with the operator.
pub mod Errors
pub mod Retry
pub mod Traces
pub mod Attempts
pub mod Upload
pub mod Spool
pub mod UploadTask
pub mod Lawful
pub mod Calls
pub mod Delivered
pub mod Durable
pub mod Reported
pub mod Replay
pub mod Replayed
pub mod Caps
mod Examples
