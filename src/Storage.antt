-- ===== src/Storage.antt =====
-- crates/booth-bin/src/file_storage.rs: values under keys, a file for each.
pub mod Names
pub mod Files
pub mod Decoded
pub mod Kept
mod Examples
