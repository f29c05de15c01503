-- ===== src/Bridge.antt =====
-- crates/geomqtt-server/src/redis.rs: the bridge between the nodes.
pub mod Defs
pub mod Deliver
pub mod Across
pub mod Echo
