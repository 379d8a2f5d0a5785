-- ===== src/Flac.antt =====
-- crates/booth-pi/src/flac_frame.rs: explicit sample rates in the frame headers of a FLAC stream.
pub mod Crc
pub mod Header
pub mod Rewrite
pub mod Frame
pub mod Layout
pub mod Stream
pub mod Atomic
pub mod Idempotent
pub mod Accepts
mod Examples
