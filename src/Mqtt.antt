-- ===== src/Mqtt.antt =====
-- crates/geomqtt-server/src/mqtt.rs.
pub mod Reply
pub mod Attributes
pub mod Fields
pub mod Geo
pub mod Snapshot
pub mod Packet
pub mod Connection
pub mod Cleanup
pub mod Returns
pub mod Table
pub mod Total
pub mod Quiet
pub mod Replay
pub mod Chunks
pub mod Appends
pub mod Flow
pub mod Order
