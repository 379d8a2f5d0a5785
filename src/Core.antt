-- ===== src/Core.antt =====
-- crates/booth-core/src/lib.rs: the pure state machine.
pub mod Types
pub mod Led
pub mod Decode
pub mod Inner
pub mod Handle
pub mod Cases
pub mod Outputs
pub mod Timers
pub mod LedSync
pub mod StatusSync
pub mod Answers
pub mod Starts
pub mod Paused
pub mod HangUp
pub mod Dialing
mod Examples
