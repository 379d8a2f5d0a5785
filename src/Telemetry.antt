-- ===== src/Telemetry.antt =====
-- crates/booth-telemetry/src/lib.rs: the telemetry bus with its replay ring.
pub mod Bus
pub mod Numbered
pub mod Replay
pub mod Publishers
pub mod Taken
pub mod Arrivals
pub mod Overtaken
pub mod LatestLed
mod Examples
