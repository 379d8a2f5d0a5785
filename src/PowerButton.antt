-- ===== src/PowerButton.antt =====
-- crates/booth-bin/src/lib.rs: the task that times the power button.
pub mod Task
pub mod Lasting
pub mod Turned
pub mod Held
mod Examples
