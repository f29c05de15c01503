-- ===== src/Payload.antt =====
-- crates/geomqtt-server/src/payload.rs.
pub mod Attrs
pub mod Defs
pub mod Shape
