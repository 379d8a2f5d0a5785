-- ===== src/Runtime.antt =====
-- crates/booth-bin/src/lib.rs: the runtime loop around the state machine.
pub mod Events
pub mod Digits
pub mod Loop
pub mod Published
mod Examples
