-- ===== src/Gpio.antt =====
-- crates/booth-pi/src/gpio.rs: the polling of the input pins.
pub mod Debounce
pub mod Poll
pub mod Button
pub mod Steps
pub mod Steady
pub mod Confirms
mod Examples
