-- ===== src/Node/Step.antt =====
-- main.rs: how a server starts, and the steps that its tasks take.
use geomqtt.Base.{ℕ, ◌+◌, ◌<◌, ◌≢◌, [], Option, none, some, Bool, true, ◌≡◌, Text, Bytes, All, map}
use geomqtt.Bridge.Defs.{Received, receive}
use geomqtt.Broker.Defs
use geomqtt.Broker.Defs.{Channels, u64_mod}
use geomqtt.Broker.Invariant.{channel_of}
use geomqtt.Config.FromEnv.{Config, InfluxSettings}
use geomqtt.Float.{F64}
use geomqtt.Http.Document.{Document}
use geomqtt.Http.Handle.{Request, Response, Process, settings, count_request}
use geomqtt.Influx.Queue.{Queue}
use geomqtt.Metrics
use geomqtt.Mqtt.Connection.{pop, accept_tcp, accept_ws}
use geomqtt.Mqtt.Packet.{Packet, Handled, handle_packet}
use geomqtt.Mqtt.Snapshot.{snapshot_for_filter}
use geomqtt.Resp.Frame.{Resp2Frame}
use geomqtt.Resp.Handle.{handle_command}
use geomqtt.World.{Env, World}

-- The queue of the sink, if the sink is configured.
abbrev pub queue_of : Option InfluxSettings → Option Queue
queue_of none = none
queue_of (some s) = some (record { lines = []; is_open = true })

module _ (env : Env) {SocketAddr : Type 0} (cfg : Config SocketAddr) where
  -- The state that `main` makes: the upstream is as it is found.
  abbrev pub started : env.redis.State → Channels → (ℕ → ℕ) → World env
  started upstream chans clock = record {
    broker = Defs.new;
    chans = chans;
    metrics = Metrics.new;
    upstream = upstream;
    influx = queue_of cfg.influx;
    clock = clock;
  }

module _ (env : Env) {SocketAddr : Type 0} (cfg : Config SocketAddr)
    (to_string : Document (F64.F (Env.float env)) → Text) (reason : Text)
    (process : Process (Env.float env)) where
  -- What a task does in one go. A connection registers with a channel that it has just made.
  pub data Step (w : World env) : World env → Type 0 where
    accepts_tcp : Step w (accept_tcp env w)
    accepts_ws : Step w (accept_ws env w)
    connects :
        (outbound : ℕ)
        → w.broker.next_id + 1 < u64_mod
        → All (λ c. c ≢ outbound) (map channel_of w.broker.sessions)
        → Step w (record w { broker = (Defs.register w.broker outbound).0 })
    packet :
        (session_id outbound : ℕ) (seen : Bool) (pkt : Packet) (r : Handled) (w' : World env)
        → handle_packet env session_id outbound seen pkt w ≡ some (r, w')
        → Step w w'
    snapshot :
        (filter : Text) (session_id : ℕ) (done : Bool) (w' : World env)
        → snapshot_for_filter env (settings cfg) filter session_id w ≡ some (done, w')
        → Step w w'
    writes :
        (outbound : ℕ) (bytes : Bytes) (chans : Channels)
        → pop outbound w.chans ≡ some (bytes, chans)
        → Step w (record w { chans = chans })
    disconnects :
        (session_id : ℕ) → Step w (record w { broker = Defs.deregister w.broker session_id })
    command :
        (frame response : Resp2Frame) (w' : World env)
        → handle_command env (settings cfg) frame w ≡ some (response, w')
        → Step w w'
    request :
        (req : Request) (response : Response) (w' : World env)
        → count_request env cfg to_string reason process req w ≡ some (response, w')
        → Step w w'
    bridged :
        (received : Received) (w' : World env) → receive env received w ≡ some (tt, w') → Step w w'
    -- another client of Redis, the clock, or the task that posts to InfluxDB
    outside :
        (s : env.redis.State) (clock : ℕ → ℕ) (influx : Option Queue)
        → Step w (record w { upstream = s; clock = clock; influx = influx })

  -- The states that a server can reach.
  pub data Run : World env → Type 0 where
    starts :
        (upstream : env.redis.State) (chans : Channels) (clock : ℕ → ℕ)
        → Run (started env cfg upstream chans clock)
    goes_on : {w w' : World env} → Run w → Step w w' → Run w'
