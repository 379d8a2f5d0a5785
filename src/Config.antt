-- ===== src/Config.antt =====
-- crates/booth-bin/src/lib.rs: the configuration and its validation.
pub mod Types
pub mod Validate
pub mod Distinct
pub mod Sections
pub mod Accepts
mod Examples
