-- ===== src/Node/Main.antt =====
-- main.rs: `main`, from the settings to the `select!` over the tasks, and redis.rs: `connect`.
use geomqtt.Base.{ℕ, List, [], ◌∷◌, Option, none, some, Bool, Text, String, lit, if◌then◌else◌}
use geomqtt.Base.Results.{Result, ok, err, ◌>>=◌}
use geomqtt.Bridge.Defs.{Received, run_pubsub_bridge}
use geomqtt.Config.{ConfigError}
use geomqtt.Config.FromEnv.{Config, Environment, from_env}
use geomqtt.Node.Serve.{
  Task, running, returned, panicked, Listener, Server, serve_mqtt, serve_resp, serve_http,
}
use geomqtt.Broker.Defs.{Channels}
use geomqtt.Node.Step.{started}
use geomqtt.Topic.{make_node_id}
use geomqtt.World.{Env}

-- Why `main` fails.
pub data Failure : Type 0 where
  -- `Config::from_env`
  settings : ConfigError → Failure
  -- a step of `connect`, by its context, with the cause
  upstream : Text → Text → Failure
  -- an error that a task has returned
  task : Text → Failure
  -- a `JoinError`
  lost_task : Failure

-- What the client of Redis answers as it starts, by the URL, and what the id of the node is made
-- of.
pub record Upstream : Type 0 where
  pub from_url : Text → Result Text (Unit {0})
  pub init_client : Result Text (Unit {0})
  pub ping : Result Text (Unit {0})
  pub init_subscriber : Result Text (Unit {0})
  pub pid : ℕ
  pub nanos : ℕ

-- `.context(..)`
unfoldable pub context : String → Result Text (Unit {0}) → Result Failure (Unit {0})
context c (ok _) = ok tt
context c (err e) = err (upstream (lit c) e)

-- The handle has the id of the node.
unfoldable pub connect : Upstream → Text → Result Failure Text
connect up redis_url = do
  _ ← context "parsing GEOMQTT_REDIS_URL" (up.from_url redis_url)
  _ ← context "connect upstream Redis (command client)" up.init_client
  _ ← context "PING upstream" up.ping
  _ ← context "connect upstream Redis (subscriber client)" up.init_subscriber
  ok (make_node_id up.pid up.nanos)

unfoldable pub with_settings : {A : Type 0} → Result ConfigError A → Result Failure A
with_settings (ok cfg) = ok cfg
with_settings (err e) = err (settings e)

-- What `main` has before it spawns the tasks: the settings and the id of the node.
unfoldable pub prepare :
    {SocketAddr : Type 0}
    → (Text → Option SocketAddr)
    → Environment
    → Upstream
    → Result Failure (Config SocketAddr × Text)
prepare parse_socket vars up = do
  cfg ← with_settings (from_env parse_socket vars)
  node_id ← connect up cfg.redis_url
  ok (cfg, node_id)

-- The branches of `select!`, in whose order it looks for one that is ready: it shuffles them.
pub data Branch : Type 0 where
  resp_task mqtt_task http_task bridge_task ctrl_c : Branch

-- What a branch leaves: `r??` fails if the task has panicked or returned an error.
unfoldable pub joined : Task → Option (Result Failure (Unit {0}))
joined running = none
joined panicked = some (err lost_task)
joined (returned (err e)) = some (err (task e))
joined (returned (ok _)) = some (ok tt)

-- The first branch in an order that is ready.
unfoldable pub select :
    List Branch → (Branch → Option (Result Failure (Unit {0}))) → Option (Result Failure (Unit {0}))
select [] ready = none
select (b ∷ bs) ready = elim (ready b) [ none ↦ select bs ready | some r ↦ some r ]

-- What is answered from outside, as far as it has come.
pub record Answers : Type 0 where
  pub bind_resp : Result Text (Unit {0})
  pub bind_tcp : Result Text (Unit {0})
  pub bind_ws : Result Text (Unit {0})
  pub bind_http : Result Text (Unit {0})
  -- the answers to `accept`
  pub resp_accepts : List (Listener × Result Text (Unit {0}))
  pub mqtt_accepts : List (Listener × Result Text (Unit {0}))
  pub http_served : Option (Result Text (Unit {0}))
  pub subscribed : Result Text (Unit {0})
  pub received : List Received
  pub interrupted : Bool

module _ (env : Env) where
  -- `run_pubsub_bridge` from the subscription on.
  unfoldable pub bridge : Result Text (Unit {0}) → List Received → Server env → Task × Server env
  bridge (err e) received s = (returned (err e), s)
  bridge (ok _) received s = elim (run_pubsub_bridge env received s.world) [
    | none ↦ (panicked, s)
    | some (_, w) ↦ (running, record s { world = w })
  ]

  -- The branches once the answers have come, and the state that the tasks leave.
  unfoldable pub tasks :
      Answers → Server env → (Branch → Option (Result Failure (Unit {0}))) × Server env
  tasks a s =
      let (resp, s1) = serve_resp env a.bind_resp a.resp_accepts s in
      let (mqtt, s2) = serve_mqtt env a.bind_tcp a.bind_ws a.mqtt_accepts s1 in
      let http = serve_http a.bind_http a.http_served in
      let (bridged, s3) = bridge a.subscribed a.received s2 in
      (
        (λ b. elim b [
          | resp_task ↦ joined resp
          | mqtt_task ↦ joined mqtt
          | http_task ↦ joined http
          | bridge_task ↦ joined bridged
          | ctrl_c ↦ (if a.interrupted then some (ok tt) else none)
        ]),
        s3,
      )

  -- The `select!` of `main`: `none` as long as the server runs.
  unfoldable pub serve_all : List Branch → Answers → Server env → Option (Result Failure (Unit {0}))
  serve_all order a s = select order (tasks a s).0

-- `main`: the settings and the upstream, and then the tasks, in the state that is made for them.
unfoldable pub main :
    {SocketAddr : Type 0} (env : Text → Env) (parse_socket : Text → Option SocketAddr)
    (vars : Environment) (up : Upstream) (found : (node_id : Text) → (env node_id).redis.State)
    (chans : Channels) (clock : ℕ → ℕ) (order : List Branch) (a : Answers)
    → Option (Result Failure (Unit {0}))
main env parse_socket vars up found chans clock order a = elim (prepare parse_socket vars up) [
  | err e ↦ some (err e)
  | ok (cfg, node_id) ↦
      serve_all (env node_id) order a
        (record { world = started (env node_id) cfg (found node_id) chans clock; spawned = [] })
]
