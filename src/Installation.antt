-- ===== src/Installation.antt =====
-- crates/booth-bin/src/installation.rs: whether calls are accepted.
pub mod Gate
pub mod Steps
pub mod Sticky
pub mod Lease
pub mod Fetches
pub mod Gated
mod Examples
