-- ===== src/Config.antt =====
-- crates/geomqtt-server/src/config.rs.
mod Error
pub mod TileSize
pub mod Zooms
pub mod Order
pub mod Coverage
pub mod FromEnv
pub mod Offset
pub use Error.*
