-- ===== src/Metrics/Scrape.antt =====
-- metrics.rs: what a scraper finds in the report of `render`.
use geomqtt.Base.{
  ℕ, List, [], ◌∷◌, ◌++◌, Option, none, some, ◌≡◌, refl, ◌∙◌, ap, append_assoc, ◌≤◌, Text, lit,
  strip_prefix, parse_uint, u64_max, split, parse-show,
}
use geomqtt.Broker.Defs.{Broker, size}
use geomqtt.Float.{F64}
use geomqtt.Metrics.{Metrics}
use geomqtt.Metrics.Lines.{IsLine, split-written, report-IsLine}
use geomqtt.Metrics.Memory.{ProcMem}
use geomqtt.Metrics.Render.{
  metric, metrics, sample, session_rows, counter_rows, memory_lines, connection_lines, build_lines,
  report, render,
}

-- The value of the first line that starts with the name and a space.
unfoldable pub find_sample : Text → List Text → Option ℕ
find_sample name [] = none
find_sample name (line ∷ rest) = elim (strip_prefix line (name ++ b' ' ∷ [])) [
  | none ↦ find_sample name rest
  | some value ↦ parse_uint u64_max value
]

-- What a scraper reads under the name of a sample.
unfoldable pub scrape : Text → Text → Option ℕ
unfolding find_sample
scrape page name = find_sample name (split page b'\n')

pub data Sample : Type 0 where
  sessions subscriptions connections_tcp connections_ws mqtt_packets_in mqtt_publish_local
        resp_commands resp_geo_writes tile_fanouts object_fanouts redis_bridge_messages
        http_requests influx_writes_enqueued influx_writes_dropped influx_batches_sent
        influx_batch_errors :
      Sample

-- The name of a sample without `geomqtt_`.
abbrev suffix : Sample → Text
suffix sessions = lit "mqtt_sessions"
suffix subscriptions = lit "mqtt_subscriptions"
suffix connections_tcp = lit "mqtt_connections_total{transport=\"tcp\"}"
suffix connections_ws = lit "mqtt_connections_total{transport=\"ws\"}"
suffix mqtt_packets_in = lit "mqtt_packets_received_total"
suffix mqtt_publish_local = lit "mqtt_publish_local_total"
suffix resp_commands = lit "resp_commands_total"
suffix resp_geo_writes = lit "resp_geo_writes_total"
suffix tile_fanouts = lit "tile_fanouts_total"
suffix object_fanouts = lit "object_fanouts_total"
suffix redis_bridge_messages = lit "redis_bridge_messages_total"
suffix http_requests = lit "http_requests_total"
suffix influx_writes_enqueued = lit "influx_writes_enqueued_total"
suffix influx_writes_dropped = lit "influx_writes_dropped_total"
suffix influx_batches_sent = lit "influx_batches_sent_total"
suffix influx_batch_errors = lit "influx_batch_errors_total"

abbrev pub name_of : Sample → Text
name_of k = lit "geomqtt_" ++ suffix k

abbrev pub value_of : Sample → Metrics → Broker → ℕ
value_of sessions m broker = (size broker).0
value_of subscriptions m broker = (size broker).1
value_of connections_tcp m broker = m.mqtt_connections_tcp
value_of connections_ws m broker = m.mqtt_connections_ws
value_of mqtt_packets_in m broker = m.mqtt_packets_in
value_of mqtt_publish_local m broker = m.mqtt_publish_local
value_of resp_commands m broker = m.resp_commands
value_of resp_geo_writes m broker = m.resp_geo_writes
value_of tile_fanouts m broker = m.tile_fanouts
value_of object_fanouts m broker = m.object_fanouts
value_of redis_bridge_messages m broker = m.redis_bridge_messages
value_of http_requests m broker = m.http_requests
value_of influx_writes_enqueued m broker = m.influx_writes_enqueued
value_of influx_writes_dropped m broker = m.influx_writes_dropped
value_of influx_batches_sent m broker = m.influx_batches_sent
value_of influx_batch_errors m broker = m.influx_batch_errors

-- What stands behind the lines of the memory.
abbrev own_lines : Metrics → Broker → List Text
own_lines m broker =
    metrics "gauge" (session_rows (size broker))
    ++ connection_lines m
    ++ metrics "counter" (counter_rows m)

skip_memory :
    (k : Sample) (mem : Option ProcMem) (rest : List Text)
    → find_sample (name_of k) (memory_lines mem ++ rest) ≡ find_sample (name_of k) rest
unfolding find_sample memory_lines metrics metric sample strip_prefix
skip_memory k none rest = refl
skip_memory k (some mem) rest = refl

module _ (float : F64) (version node_id : Text) (uptime : F64.F float) (m : Metrics)
    (broker : Broker) where
  open float use {show_f64}

  -- The lines of the build and of the uptime are passed over, and the sample is found.
  found :
      (k : Sample) (rest : List Text)
      → value_of k m broker ≤ u64_max
      → (find_sample (name_of k) (build_lines float version node_id uptime ++ rest)
          ≡ find_sample (name_of k) rest)
        × (find_sample (name_of k) (own_lines m broker ++ [] ∷ []) ≡ some (value_of k m broker))
  unfolding find_sample build_lines connection_lines metrics metric sample strip_prefix size
  found sessions rest h = (refl, parse-show u64_max _ h h)
  found subscriptions rest h = (refl, parse-show u64_max _ h h)
  found connections_tcp rest h = (refl, parse-show u64_max _ h h)
  found connections_ws rest h = (refl, parse-show u64_max _ h h)
  found mqtt_packets_in rest h = (refl, parse-show u64_max _ h h)
  found mqtt_publish_local rest h = (refl, parse-show u64_max _ h h)
  found resp_commands rest h = (refl, parse-show u64_max _ h h)
  found resp_geo_writes rest h = (refl, parse-show u64_max _ h h)
  found tile_fanouts rest h = (refl, parse-show u64_max _ h h)
  found object_fanouts rest h = (refl, parse-show u64_max _ h h)
  found redis_bridge_messages rest h = (refl, parse-show u64_max _ h h)
  found http_requests rest h = (refl, parse-show u64_max _ h h)
  found influx_writes_enqueued rest h = (refl, parse-show u64_max _ h h)
  found influx_writes_dropped rest h = (refl, parse-show u64_max _ h h)
  found influx_batches_sent rest h = (refl, parse-show u64_max _ h h)
  found influx_batch_errors rest h = (refl, parse-show u64_max _ h h)

  append_parts :
      (a b c d e f : List Text) → a ++ b ++ c ++ d ++ e ++ f ≡ a ++ (b ++ (c ++ d ++ e ++ f))
  append_parts a b c d e f = simp append_assoc

  -- A scraper that reads the page of `/status`, line by line, finds the value of every counter, and
  -- those of the sessions and of the subscriptions, under its name, whatever is reported of the
  -- memory; provided that the value is a `u64`, and that neither the version, the id of the node nor
  -- the print of the uptime breaks a line.
  pub scrape-render :
      (k : Sample) (mem : Option ProcMem)
      → IsLine version
      → IsLine node_id
      → IsLine (show_f64 uptime)
      → value_of k m broker ≤ u64_max
      → scrape (render float version uptime m broker node_id mem) (name_of k)
        ≡ some (value_of k m broker)
  unfolding scrape render report
  scrape-render k mem v n u h =
      ap (find_sample (name_of k)) (
        split-written (report float version uptime m broker node_id mem)
          (report-IsLine float version uptime m broker node_id mem v n u)
        ∙ append_parts (build_lines float version node_id uptime) (memory_lines mem)
            (metrics "gauge" (session_rows (size broker))) (connection_lines m)
            (metrics "counter" (counter_rows m)) ([] ∷ []))
      ∙ (found k (memory_lines mem ++ (own_lines m broker ++ [] ∷ [])) h).0
      ∙ skip_memory k mem (own_lines m broker ++ [] ∷ [])
      ∙ (found k [] h).1
