-- ===== src/Topic.antt =====
-- Names of MQTT topics and Redis channels, and the envelope of a cross-node message:
-- the helpers of crates/geomqtt-server/src/payload.rs, redis.rs, mqtt.rs and fanout.rs.
mod Names
mod Node
pub mod RoundTrip
pub mod Foreign
pub mod NodeId
unfoldable pub use Names.*
unfoldable pub use Node.*
