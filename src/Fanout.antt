-- ===== src/Fanout.antt =====
-- crates/geomqtt-server/src/fanout.rs.
pub mod Defs
pub mod Plan
pub mod View
pub mod Total
pub mod Packets
pub mod Objects
pub mod Attributes
pub mod Received
pub mod Removal
