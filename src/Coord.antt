-- ===== src/Coord.antt =====
-- crates/geomqtt-server/src/coord.rs.
pub mod Tile
pub mod Bounds
pub mod Cover
