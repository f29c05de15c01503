-- ===== src/Broker.antt =====
-- crates/geomqtt-server/src/broker.rs.
pub mod Defs
pub mod Table
pub mod Invariant
pub mod Delivery
pub mod Once
pub mod Reach
