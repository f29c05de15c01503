-- ===== src/Resp.antt =====
-- crates/geomqtt-server/src/resp.rs.
pub mod Frame
pub mod Args
pub mod Convert
pub mod Handle
pub mod Total
mod Runs
pub mod Received
pub mod Deleted
pub mod Hashes
pub mod Quiet
pub mod Failure
pub mod Encode
pub mod Client
pub mod Answered
