-- ===== src/OperatorClient.antt =====
-- crates/booth-pi/src/operator.rs: the HTTP client of the operator. The requests themselves belong to the
-- crate reqwest: what they answer is input.
pub mod Transfer
pub mod Tried
pub mod UploadUrl
pub mod Uploads
pub mod Answers
pub mod Statuses
mod Examples
