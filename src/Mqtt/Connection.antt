-- ===== src/Mqtt/Connection.antt =====
-- mqtt.rs: `handle_tcp` and `handle_ws`, as the sequence of what `select!` takes up. Other tasks act
-- in between, the spawned snapshots among them.
use geomqtt.Base.{
  ℕ, suc, List, [], ◌∷◌, ◌++◌, Option, none, some, Bool, true, false, Text, Bytes, ◌==◌,
  if◌then◌else◌,
}
use geomqtt.Broker.Defs
use geomqtt.Broker.Defs.{Channel, Channels}
use geomqtt.Stream.Defs.{Decoder, Reading, waiting, ended, resume}
use geomqtt.Metrics.{inc}
use geomqtt.Mqtt.Packet.{Packet, Handled, goes_on, ends, handle_packet}
use geomqtt.World.{Env, World, Action, ◌>>=◌, pure}

-- The message at the front of a channel is taken.
unfoldable pub pop : ℕ → Channels → Option (Bytes × Channels)
pop c chans = elim (chans c).queue [
  | [] ↦ none
  | bytes ∷ rest ↦
      some (
        bytes,
        λ d. if d == c then record { queue = rest; is_open = (chans c).is_open } else chans d,
      )
]

-- The receiver of a channel is dropped: what waits is lost, and nothing can be sent.
unfoldable pub dropped : ℕ → Channels → Channels
dropped c chans d = if d == c then record { queue = []; is_open = false } else chans d

module _ (env : Env) where
  -- A connection with what it shares: `written` is what the socket took, `writes` whether the
  -- writes that are still to come succeed.
  pub record Connection : Type 0 where
    pub world : World env
    pub connect_seen : Bool
    pub spawned : List Text
    pub written : List Bytes
    pub writes : ℕ → Bool

  -- What comes next: bytes are read, the peer closes or a read fails, a message is taken from the
  -- session's channel, or other tasks act.
  pub data Event : Type 0 where
    arrived : Bytes → Event
    closed read_failed outgoing : Event
    elsewhere : (World env → World env) → Event

  -- The messages of a WebSocket.
  pub data WsEvent : Type 0 where
    binary ping : Bytes → WsEvent
    close stream_end failed ignored outgoing : WsEvent
    elsewhere : (World env → World env) → WsEvent

module _ (env : Env) (decoder : Decoder Packet) (session_id outbound : ℕ) where
  -- `write_all`, and whether it succeeds
  unfoldable pub write_all : Bytes → Action (Connection env) Bool
  write_all bytes c =
      if c.writes 0
      then some
          (true, record c { written = c.written ++ bytes ∷ []; writes = λ i. c.writes (suc i) })
      else some (false, record c { writes = λ i. c.writes (suc i) })

  unfoldable pub handled : Handled → Action (Connection env) Bool
  handled (goes_on seen filters) c =
      some (true, record c { connect_seen = seen; spawned = c.spawned ++ filters })
  handled ends c = some (false, c)

  unfoldable pub on_packet : Packet → Action (Connection env) Bool
  on_packet pkt c = elim (handle_packet env session_id outbound c.connect_seen pkt c.world) [
    | none ↦ none
    | some (result, world) ↦ handled result (record c { world = world })
  ]

  unfoldable pub after_write : Reading → Bool → Action (Connection env) Reading
  after_write r true = pure r
  after_write r false = pure ended

  unfoldable pub write_next : Reading → Action (Connection env) Reading
  write_next r c = elim (pop outbound c.world.chans) [
    | none ↦ some (r, c)
    | some (bytes, chans) ↦
        (write_all bytes >>= after_write r) (record c { world = record c.world { chans = chans } })
  ]

  unfoldable pub meanwhile : (World env → World env) → Reading → Action (Connection env) Reading
  meanwhile act r c = some (r, record c { world = act c.world })

  -- One turn of the loop.
  unfoldable pub step : Event env → Reading → Action (Connection env) Reading
  step (Event.arrived chunk) r = resume decoder on_packet r chunk
  step Event.closed r = pure ended
  step Event.read_failed r = pure ended
  step Event.outgoing r = write_next r
  step (Event.elsewhere act) r = meanwhile act r

  unfoldable pub ws_step : WsEvent env → Reading → Action (Connection env) Reading
  ws_step (WsEvent.binary data_bytes) r = resume decoder on_packet r data_bytes
  ws_step (WsEvent.ping p) r = write_all p >>= after_write r
  ws_step WsEvent.close r = pure ended
  ws_step WsEvent.stream_end r = pure ended
  ws_step WsEvent.failed r = pure ended
  ws_step WsEvent.ignored r = pure r
  ws_step WsEvent.outgoing r = write_next r
  ws_step (WsEvent.elsewhere act) r = meanwhile act r

  -- `broker_for_cleanup.deregister(session_id)`, once the loop has ended, and the drop of
  -- `outbound_rx` when the function returns
  unfoldable pub finish : Reading → Action (Connection env) Reading
  finish (waiting buf) c = some (waiting buf, c)
  finish ended c = some (
    ended,
    record c {
      world = record c.world {
        broker = Defs.deregister c.world.broker session_id;
        chans = dropped outbound c.world.chans;
      };
    },
  )

-- `serve` counts a connection before it spawns its task.
module _ (env : Env) where
  unfoldable pub accept_tcp : World env → World env
  accept_tcp w = record w {
    metrics = record w.metrics { mqtt_connections_tcp = inc w.metrics.mqtt_connections_tcp };
  }

  unfoldable pub accept_ws : World env → World env
  accept_ws w = record w {
    metrics = record w.metrics { mqtt_connections_ws = inc w.metrics.mqtt_connections_ws };
  }

-- The loop, over what comes as long as it has not ended.
unfoldable pub run :
    {C E : Type 0} → (E → Reading → Action C Reading) → List E → Reading → Action C Reading
run turn [] r = pure r
run turn (e ∷ events) ended = pure ended
run turn (e ∷ events) (waiting buf) = turn e (waiting buf) >>= run turn events

module _ (env : Env) (decoder : Decoder Packet) (outbound : ℕ) (writes : ℕ → Bool) where
  -- A new session, with its connection.
  unfoldable pub connected : World env → Connection env
  connected w = record {
    world = record w { broker = (Defs.register w.broker outbound).0 };
    connect_seen = false;
    spawned = [];
    written = [];
    writes = writes;
  }

  -- The connection after some events; it is still open if the result is `waiting`.
  unfoldable pub handle_tcp : List (Event env) → World env → Option (Reading × Connection env)
  handle_tcp events w =
      let id = (Defs.register w.broker outbound).1 in
      (run (step env decoder id outbound) events (waiting []) >>= finish env decoder id outbound)
        (connected w)

  unfoldable pub handle_ws : List (WsEvent env) → World env → Option (Reading × Connection env)
  handle_ws events w =
      let id = (Defs.register w.broker outbound).1 in
      (run (ws_step env decoder id outbound) events (waiting []) >>= finish env decoder id outbound)
        (connected w)
