-- ===== src/Metrics/Render.antt =====
-- metrics.rs: the report of `render`, in the text format of Prometheus. The version of the package
-- and the uptime are arguments.
use geomqtt.Base.{ℕ, List, [], ◌∷◌, ◌++◌, Option, none, some, Text, String, lit, show}
use geomqtt.Broker.Defs.{Broker, size}
use geomqtt.Float.{F64}
use geomqtt.Metrics.{Metrics}
use geomqtt.Metrics.Memory.{ProcMem}

-- The lines of a metric, the samples last.
unfoldable pub metric : String → String → String → List Text → List Text
metric name help kind samples =
    (lit "# HELP " ++ lit name ++ lit " " ++ lit help)
    ∷ (lit "# TYPE " ++ lit name ++ lit " " ++ lit kind)
    ∷ samples

-- A sample, by its name with the labels and its value.
unfoldable pub sample : Text → Text → Text
sample name value = name ++ b' ' ∷ value

-- Some metrics of one kind, with a sample each: their names, what they are, and their values.
unfoldable pub metrics : String → List (String × String × ℕ) → List Text
unfolding metric sample
metrics kind [] = []
metrics kind ((name, help, value) ∷ rows) =
    metric name help kind (sample (lit name) (show value) ∷ []) ++ metrics kind rows

abbrev pub memory_rows : ProcMem → List (String × String × ℕ)
memory_rows mem =
    ("process_resident_memory_bytes", "Resident memory in bytes (Linux VmRSS)", mem.rss)
    ∷ ("process_virtual_memory_bytes", "Virtual memory in bytes (Linux VmSize)", mem.vsize)
    ∷ ("process_resident_memory_max_bytes", "Peak resident memory in bytes (Linux VmHWM)", mem.hwm)
    ∷ []

unfoldable pub memory_lines : Option ProcMem → List Text
unfolding metrics
memory_lines none = []
memory_lines (some mem) = metrics "gauge" (memory_rows mem)

-- The sessions and the subscriptions.
abbrev pub session_rows : ℕ × ℕ → List (String × String × ℕ)
session_rows (sessions, subs) =
    ("geomqtt_mqtt_sessions", "Active MQTT sessions on this node", sessions)
    ∷ (
      "geomqtt_mqtt_subscriptions", "Active MQTT topic-filter subscriptions across all sessions",
      subs,
    )
    ∷ []

-- The two samples of one metric.
unfoldable pub connection_lines : Metrics → List Text
unfolding metric sample
connection_lines m =
    metric "geomqtt_mqtt_connections_total" "Cumulative MQTT connections accepted" "counter" (
      sample (lit "geomqtt_mqtt_connections_total{transport=\"tcp\"}") (show m.mqtt_connections_tcp)
      ∷ sample (lit "geomqtt_mqtt_connections_total{transport=\"ws\"}") (show m.mqtt_connections_ws)
      ∷ [])

abbrev pub counter_rows : Metrics → List (String × String × ℕ)
counter_rows m =
    (
      "geomqtt_mqtt_packets_received_total", "Cumulative MQTT packets parsed from clients",
      m.mqtt_packets_in,
    )
    ∷ (
      "geomqtt_mqtt_publish_local_total", "Cumulative PUBLISH broadcasts to local subscribers",
      m.mqtt_publish_local,
    )
    ∷ ("geomqtt_resp_commands_total", "Cumulative RESP commands proxied", m.resp_commands)
    ∷ (
      "geomqtt_resp_geo_writes_total", "Cumulative GEOADD/ZREM intercepts that triggered fanout",
      m.resp_geo_writes,
    )
    ∷ (
      "geomqtt_tile_fanouts_total", "Cumulative tile-topic publishes (geo/<set>/<z>/<x>/<y>)",
      m.tile_fanouts,
    )
    ∷ (
      "geomqtt_object_fanouts_total", "Cumulative object-topic publishes (objects/<obid>)",
      m.object_fanouts,
    )
    ∷ (
      "geomqtt_redis_bridge_messages_total",
      "Cumulative cross-node pub/sub envelopes received and applied locally",
      m.redis_bridge_messages,
    )
    ∷ ("geomqtt_http_requests_total", "Cumulative HTTP requests served", m.http_requests)
    ∷ (
      "geomqtt_influx_writes_enqueued_total",
      "Cumulative line-protocol points handed to the Influx writer task", m.influx_writes_enqueued,
    )
    ∷ (
      "geomqtt_influx_writes_dropped_total",
      "Cumulative line-protocol points dropped because the writer queue was full",
      m.influx_writes_dropped,
    )
    ∷ (
      "geomqtt_influx_batches_sent_total", "Cumulative successful HTTP POSTs to /api/v2/write",
      m.influx_batches_sent,
    )
    ∷ (
      "geomqtt_influx_batch_errors_total", "Cumulative failed HTTP POSTs to /api/v2/write",
      m.influx_batch_errors,
    )
    ∷ []

-- Each line is ended.
unfoldable pub written : List Text → Text
written [] = []
written (line ∷ rest) = line ++ b'\n' ∷ written rest

module _ (float : F64) where
  open float use {F, show_f64}

  -- The build and the uptime.
  unfoldable pub build_lines : Text → Text → F → List Text
  unfolding metric sample
  build_lines version node_id uptime =
      metric "geomqtt_build_info" "Build info (gauge always 1)" "gauge" (
        sample
          (lit "geomqtt_build_info{version=\""
            ++ version
            ++ lit "\",node_id=\""
            ++ node_id
            ++ lit "\"}")
          (lit "1")
        ∷ [])
      ++ metric "geomqtt_uptime_seconds" "Process uptime in seconds" "gauge"
          (sample (lit "geomqtt_uptime_seconds") (show_f64 uptime) ∷ [])

  unfoldable pub report : Text → F → Metrics → Broker → Text → Option ProcMem → List Text
  unfolding memory_lines metrics connection_lines build_lines
  report version uptime m broker node_id mem =
      build_lines version node_id uptime
      ++ memory_lines mem
      ++ metrics "gauge" (session_rows (size broker))
      ++ connection_lines m
      ++ metrics "counter" (counter_rows m)

  unfoldable pub render : Text → F → Metrics → Broker → Text → Option ProcMem → Text
  unfolding report written
  render version uptime m broker node_id mem = written (report version uptime m broker node_id mem)
