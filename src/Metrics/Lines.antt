-- ===== src/Metrics/Lines.antt =====
-- metrics.rs: no line of the report is broken.
use geomqtt.Base.{
  ℕ, List, [], ◌∷◌, ◌++◌, Option, none, some, ◌≡◌, ◌≢◌, refl, ◌∙◌, ap, arith, Text, String, Bool,
  true, not, ◌&&◌, ◌==◌, lit, Lacks, All, All-append, show, show-Lacks, inl, split, split-append,
}
use geomqtt.Broker.Defs.{Broker, size}
use geomqtt.Float.{F64}
use geomqtt.Metrics.{Metrics}
use geomqtt.Metrics.Memory.{ProcMem}
use geomqtt.Metrics.Render.{
  metric, metrics, sample, memory_rows, memory_lines, session_rows, connection_lines, counter_rows,
  build_lines, report, written,
}

abbrev pub IsLine : Text → Type 0
IsLine = Lacks b'\n'

pub split-written : (ls : List Text) → All IsLine ls → split (written ls) b'\n' ≡ ls ++ [] ∷ []
unfolding written split
split-written [] h = refl
split-written (l ∷ ls) (h, hs) =
    split-append l (written ls) b'\n' h ∙ ap (λ r. l ∷ r) (split-written ls hs)

-- A test for one line.
one_line : Text → Bool
one_line [] = true
one_line (c ∷ s) = not (c == b'\n') && one_line s

one_line-IsLine : (s : Text) → one_line s ≡ true → IsLine s
unfolding one_line
one_line-IsLine [] h = tt
one_line-IsLine (c ∷ s) h = (ground arith, one_line-IsLine s (ground arith))

IsLine-append : (s t : Text) → IsLine s → IsLine t → IsLine (s ++ t)
IsLine-append s t = All-append (λ c. c ≢ b'\n') s t

show-IsLine : (n : ℕ) → IsLine (show n)
show-IsLine n = show-Lacks b'\n' n (inl (omega arith))

sample-IsLine :
    (name value : Text) → one_line name ≡ true → IsLine value → IsLine (sample name value)
unfolding sample
sample-IsLine name value h k =
    IsLine-append name (b' ' ∷ value) (one_line-IsLine name h) (omega arith, k)

-- The two lines in front of the samples.
plain_head : String → String → String → Bool
plain_head name help kind =
    one_line (lit "# HELP " ++ lit name ++ lit " " ++ lit help)
    && one_line (lit "# TYPE " ++ lit name ++ lit " " ++ lit kind)

plain_rows : String → List (String × String × ℕ) → Bool
plain_rows kind [] = true
plain_rows kind ((name, help, value) ∷ rows) =
    plain_head name help kind && one_line (lit name) && plain_rows kind rows

metric-IsLine :
    (name help kind : String) (samples : List Text)
    → plain_head name help kind ≡ true
    → All IsLine samples
    → All IsLine (metric name help kind samples)
unfolding metric plain_head
metric-IsLine name help kind samples p h = (
  one_line-IsLine (lit "# HELP " ++ lit name ++ lit " " ++ lit help) (ground arith),
  (one_line-IsLine (lit "# TYPE " ++ lit name ++ lit " " ++ lit kind) (ground arith), h),
)

metrics-IsLine :
    (kind : String) (rows : List (String × String × ℕ))
    → plain_rows kind rows ≡ true
    → All IsLine (metrics kind rows)
unfolding metrics metric plain_rows plain_head
metrics-IsLine kind [] h = tt
metrics-IsLine kind ((name, help, value) ∷ rows) h =
    metric-IsLine name help kind (sample (lit name) (show value) ∷ metrics kind rows) (ground arith)
      (
        sample-IsLine (lit name) (show value) (ground arith) (show-IsLine value),
        metrics-IsLine kind rows (ground arith),
      )

memory_lines-IsLine : (mem : Option ProcMem) → All IsLine (memory_lines mem)
unfolding memory_lines one_line plain_head plain_rows
memory_lines-IsLine none = tt
memory_lines-IsLine (some mem) = metrics-IsLine "gauge" (memory_rows mem) refl

connection_lines-IsLine : (m : Metrics) → All IsLine (connection_lines m)
unfolding connection_lines one_line plain_head
connection_lines-IsLine m =
    metric-IsLine "geomqtt_mqtt_connections_total" "Cumulative MQTT connections accepted" "counter"
      (sample (lit "geomqtt_mqtt_connections_total{transport=\"tcp\"}")
          (show m.mqtt_connections_tcp)
        ∷ sample (lit "geomqtt_mqtt_connections_total{transport=\"ws\"}")
            (show m.mqtt_connections_ws)
        ∷ [])
      refl
      (
        sample-IsLine (lit "geomqtt_mqtt_connections_total{transport=\"tcp\"}")
            (show m.mqtt_connections_tcp) refl (show-IsLine m.mqtt_connections_tcp),
        (
          sample-IsLine (lit "geomqtt_mqtt_connections_total{transport=\"ws\"}")
              (show m.mqtt_connections_ws) refl (show-IsLine m.mqtt_connections_ws),
          tt,
        ),
      )

module _ (float : F64) where
  open float use {F, show_f64}

  build_info-IsLine :
      (version node_id : Text)
      → IsLine version
      → IsLine node_id
      → IsLine (
          sample
            (lit "geomqtt_build_info{version=\""
              ++ version
              ++ lit "\",node_id=\""
              ++ node_id
              ++ lit "\"}")
            (lit "1"))
  unfolding sample one_line
  build_info-IsLine version node_id v n =
      let head = lit "geomqtt_build_info{version=\"" in
      let middle = lit "\",node_id=\"" in
      let end = lit "\"}" in
      IsLine-append (head ++ version ++ middle ++ node_id ++ end) (lit " 1")
        (IsLine-append (head ++ version ++ middle ++ node_id) end
          (IsLine-append (head ++ version ++ middle) node_id
            (IsLine-append (head ++ version) middle
              (IsLine-append head version (one_line-IsLine head refl) v)
              (one_line-IsLine middle refl))
            n)
          (one_line-IsLine end refl))
        (one_line-IsLine (lit " 1") refl)

  build_lines-IsLine :
      (version node_id : Text) (uptime : F)
      → IsLine version
      → IsLine node_id
      → IsLine (show_f64 uptime)
      → All IsLine (build_lines float version node_id uptime)
  unfolding build_lines one_line plain_head
  build_lines-IsLine version node_id uptime v n u =
      All-append IsLine
        (metric "geomqtt_build_info" "Build info (gauge always 1)" "gauge" (
          (sample
            (lit "geomqtt_build_info{version=\""
              ++ version
              ++ lit "\",node_id=\""
              ++ node_id
              ++ lit "\"}")
            (lit "1"))
          ∷ []))
        (metric "geomqtt_uptime_seconds" "Process uptime in seconds" "gauge"
          (sample (lit "geomqtt_uptime_seconds") (show_f64 uptime) ∷ []))
        (metric-IsLine "geomqtt_build_info" "Build info (gauge always 1)" "gauge"
          ((sample
              (lit "geomqtt_build_info{version=\""
                ++ version
                ++ lit "\",node_id=\""
                ++ node_id
                ++ lit "\"}")
              (lit "1"))
            ∷ [])
          refl (build_info-IsLine version node_id v n, tt))
        (metric-IsLine "geomqtt_uptime_seconds" "Process uptime in seconds" "gauge"
          (sample (lit "geomqtt_uptime_seconds") (show_f64 uptime) ∷ []) refl
          (sample-IsLine (lit "geomqtt_uptime_seconds") (show_f64 uptime) refl u, tt))

  pub report-IsLine :
      (version : Text) (uptime : F) (m : Metrics) (broker : Broker) (node_id : Text)
      (mem : Option ProcMem)
      → IsLine version
      → IsLine node_id
      → IsLine (show_f64 uptime)
      → All IsLine (report float version uptime m broker node_id mem)
  unfolding report one_line plain_head plain_rows size
  report-IsLine version uptime m broker node_id mem v n u =
      let b = build_lines float version node_id uptime in
      let sessions = metrics "gauge" (session_rows (size broker)) in
      All-append IsLine (b ++ memory_lines mem ++ sessions ++ connection_lines m)
        (metrics "counter" (counter_rows m))
        (All-append IsLine (b ++ memory_lines mem ++ sessions) (connection_lines m)
          (All-append IsLine (b ++ memory_lines mem) sessions
            (All-append IsLine b (memory_lines mem)
              (build_lines-IsLine version node_id uptime v n u) (memory_lines-IsLine mem))
            (metrics-IsLine "gauge" (session_rows (size broker)) refl))
          (connection_lines-IsLine m))
        (metrics-IsLine "counter" (counter_rows m) refl)
