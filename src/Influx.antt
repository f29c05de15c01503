-- ===== src/Influx.antt =====
-- crates/geomqtt-server/src/influx.rs: the line protocol, and the queue of lines.
pub mod Line
pub mod Escape
pub mod Fields
pub mod Queue
pub mod Bounded
pub mod Writer
pub mod Posts
