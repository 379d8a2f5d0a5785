-- ===== src/UrlPolicy.antt =====
-- crates/booth-pi/src/url_policy.rs: which remote audio URLs may be fetched.
pub mod Address
pub mod Policy
pub mod Blocks
pub mod Blocks6
pub mod Accepts
mod Examples
