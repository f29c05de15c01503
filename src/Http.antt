-- ===== src/Http.antt =====
-- crates/geomqtt-server/src/http.rs: the GeoJSON endpoints.
pub mod Document
pub mod Reader
pub mod Position
pub mod Bbox
pub mod Queries
pub mod Handle
pub mod Served
pub mod Same
pub mod Features
