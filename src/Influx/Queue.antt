-- ===== src/Influx/Queue.antt =====
-- influx.rs: the bounded queue between the writers and the background task, and the lines that
-- are put on it.
use geomqtt.Base.{
  ℕ, List, [], ◌∷◌, ◌++◌, Option, none, some, Bool, true, false, ◌&&◌, Text, lit, length, ltb,
  if◌then◌else◌,
}
use geomqtt.Payload.Attrs.{Value, null, bool, number, string, other, Attrs}
use geomqtt.Influx.Line.{escape_tag, escape_field_key, push_string_field, position_line}
use geomqtt.Metrics.{Metrics, inc}

abbrev pub queue_capacity : ℕ
queue_capacity = 4096

-- The task ends by dropping its receiver; then the queue is closed.
pub record Queue : Type 0 where
  pub lines : List Text
  pub is_open : Bool

unfoldable pub try_send : Text → Queue → Queue × Bool
try_send line q =
    if q.is_open && ltb (length q.lines) queue_capacity
    then (record q { lines = q.lines ++ line ∷ [] }, true)
    else (q, false)

-- `InfluxClient::send`
unfoldable pub send : Text → Queue → Metrics → Queue × Metrics
send line q m =
    let (q', sent) = try_send line q in
    if sent
    then (q', record m { influx_writes_enqueued = inc m.influx_writes_enqueued })
    else (q', record m { influx_writes_dropped = inc m.influx_writes_dropped })

-- The value of a field as text; `Null` has none.
unfoldable pub field_value : Value → Option Text
field_value (string s) = some s
field_value (number n) = some n
field_value (bool b) = some (if b then lit "true" else lit "false")
field_value null = none
field_value (other t) = some t

unfoldable pub attr_fields : Attrs → Bool → Text
attr_fields [] first = []
attr_fields ((k, v) ∷ rest) first = elim (field_value v) [
  | none ↦ attr_fields rest first
  | some s ↦
      (if first then [] else lit ",")
      ++ (escape_field_key k ++ b'=' ∷ (push_string_field s ++ attr_fields rest false))
]

-- Whether the loop has produced a field.
unfoldable pub has_field : Attrs → Bool
has_field [] = false
has_field ((k, v) ∷ rest) = elim (field_value v) [ none ↦ has_field rest | some s ↦ true ]

-- The line of an attribute write; none if there is no field.
unfoldable pub attr_line : Text → Attrs → Option Text
attr_line obid attrs =
    if has_field attrs
    then some (lit "geomqtt_attr,obid=" ++ (escape_tag obid ++ b' ' ∷ attr_fields attrs true))
    else none

-- `InfluxClient::position`, where the coordinates are printed if they are finite.
unfoldable pub position :
    Text → Text → Option Text → Option Text → Queue → Metrics → Queue × Metrics
position set member lon lat q m = send (position_line set member lon lat) q m

-- `InfluxClient::attr`
unfoldable pub attr : Text → Attrs → Queue → Metrics → Queue × Metrics
attr obid attrs q m = elim (attr_line obid attrs) [ none ↦ (q, m) | some line ↦ send line q m ]
