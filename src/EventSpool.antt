-- ===== src/EventSpool.antt =====
-- crates/booth-bin/src/event_spool.rs: the batches of events that wait on the disk for the operator.
pub mod Files
pub mod Split
pub mod Newest
mod Examples
