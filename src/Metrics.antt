-- ===== src/Metrics.antt =====
-- crates/geomqtt-server/src/metrics.rs: the counters, which are `AtomicU64` and wrap around.
pub mod Memory
pub mod Render
pub mod Lines
pub mod Scrape
use geomqtt.Base.{ℕ, ◌+◌, ◌%◌, ◌^◌}

pub record Metrics : Type 0 where
  pub mqtt_connections_tcp : ℕ
  pub mqtt_connections_ws : ℕ
  pub mqtt_packets_in : ℕ
  pub mqtt_publish_local : ℕ
  pub resp_commands : ℕ
  pub resp_geo_writes : ℕ
  pub tile_fanouts : ℕ
  pub object_fanouts : ℕ
  pub redis_bridge_messages : ℕ
  pub http_requests : ℕ
  pub influx_writes_enqueued : ℕ
  pub influx_writes_dropped : ℕ
  pub influx_batches_sent : ℕ
  pub influx_batch_errors : ℕ

abbrev pub new : Metrics
new = record {
  mqtt_connections_tcp = 0;
  mqtt_connections_ws = 0;
  mqtt_packets_in = 0;
  mqtt_publish_local = 0;
  resp_commands = 0;
  resp_geo_writes = 0;
  tile_fanouts = 0;
  object_fanouts = 0;
  redis_bridge_messages = 0;
  http_requests = 0;
  influx_writes_enqueued = 0;
  influx_writes_dropped = 0;
  influx_batches_sent = 0;
  influx_batch_errors = 0;
}

-- `fetch_add(1, Relaxed)`
abbrev pub inc : ℕ → ℕ
inc n = (n + 1) % 2 ^ 64
