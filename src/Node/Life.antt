-- ===== src/Node/Life.antt =====
-- main.rs: `main` as a whole.
use geomqtt.Base.{ℕ, List, [], Option, none, some, false, ◌≡◌, refl, ap, ◌⊎◌, Text}
use mathlib.Core.List.{Memᴰ}
use geomqtt.Base.Results.{Result, ok, err}
use geomqtt.Bridge.Deliver.{run_pubsub_bridge-continues}
use geomqtt.Broker.Defs.{Channels}
use geomqtt.Config.FromEnv.{Environment, Config}
use geomqtt.Fanout.Total.{CanEncode}
use geomqtt.Node.Main.{
  Failure, Upstream, prepare, Branch, resp_task, mqtt_task, http_task, bridge_task, ctrl_c, joined,
  Answers, bridge, tasks, serve_all, main,
}
use geomqtt.Node.Select.{select_waits}
use geomqtt.Node.Serve.{running, Server, serve_mqtt, serve_resp, serve_http}
use geomqtt.Node.Shutdown.{Refuses, Stops, accept_loop_runs, serve_all-Stops, serve_all-Refuses}
use geomqtt.Node.Step.{started}
use geomqtt.World.{Env}

-- The listeners are bound and the channels subscribed to, no accept fails, `axum::serve` runs, and
-- nobody interrupts the server.
pub record IsServing (a : Answers) : Type 0 where
  pub bound_resp : a.bind_resp ≡ ok tt
  pub bound_tcp : a.bind_tcp ≡ ok tt
  pub bound_ws : a.bind_ws ≡ ok tt
  pub bound_http : a.bind_http ≡ ok tt
  pub resp_accepted : Refuses a.resp_accepts → ⊥
  pub mqtt_accepted : Refuses a.mqtt_accepts → ⊥
  pub http_serves : a.http_served ≡ none
  pub subscribed : a.subscribed ≡ ok tt
  pub not_interrupted : a.interrupted ≡ false

module _ (env : Env) where
  resp_runs :
      (a : Answers) (s : Server env)
      → IsServing a
      → (serve_resp env a.bind_resp a.resp_accepts s).0 ≡ running
  unfolding serve_resp
  resp_runs a s h =
      rw (h.bound_resp, serve_resp) (accept_loop_runs env a.resp_accepts s h.resp_accepted)

  mqtt_runs :
      (a : Answers) (s : Server env)
      → IsServing a
      → (serve_mqtt env a.bind_tcp a.bind_ws a.mqtt_accepts s).0 ≡ running
  unfolding serve_mqtt
  mqtt_runs a s h =
      rw (h.bound_tcp, h.bound_ws, serve_mqtt)
        (accept_loop_runs env a.mqtt_accepts s h.mqtt_accepted)

  http_runs : (a : Answers) → IsServing a → serve_http a.bind_http a.http_served ≡ running
  unfolding serve_http
  http_runs a h = rw (h.bound_http, h.http_serves, serve_http) refl

  bridge_runs :
      (a : Answers) (s : Server env)
      → CanEncode env
      → IsServing a
      → (bridge env a.subscribed a.received s).0 ≡ running
  unfolding bridge
  bridge_runs a s enc h =
      let (out, e) = run_pubsub_bridge-continues env enc a.received s.world in
      rw (h.subscribed, bridge, e) refl

  waits :
      (a : Answers) (s : Server env)
      → CanEncode env
      → IsServing a
      → (b : Branch) → (tasks env a s).0 b ≡ none
  unfolding tasks joined
  waits a s enc h resp_task = ap joined (resp_runs a s h)
  waits a s enc h mqtt_task = ap joined (mqtt_runs a _ h)
  waits a s enc h http_task = ap joined (http_runs a h)
  waits a s enc h bridge_task = ap joined (bridge_runs a _ enc h)
  waits a s enc h ctrl_c = rw h.not_interrupted refl

module _ {SocketAddr : Type 0} (env : Text → Env) (parse_socket : Text → Option SocketAddr)
    (vars : Environment) (up : Upstream) (found : (node_id : Text) → (env node_id).redis.State)
    (chans : Channels) (clock : ℕ → ℕ) (order : List Branch) (a : Answers) where
  -- A server that has its settings and its upstream runs on as long as its listeners are bound, its
  -- subscription is up, no accept fails, `axum::serve` does not return and nobody interrupts it,
  -- whatever the other nodes publish and in whatever order `select!` looks at the tasks. This holds
  -- as long as packets can be encoded.
  pub main-IsServing :
      (cfg : Config SocketAddr) (node_id : Text)
      → prepare parse_socket vars up ≡ ok (cfg, node_id)
      → CanEncode (env node_id)
      → IsServing a
      → main env parse_socket vars up found chans clock order a ≡ none
  unfolding main serve_all
  main-IsServing cfg node_id e enc h =
      rw (e, main) (select_waits order _ (waits (env node_id) a _ enc h))

  -- The server ends without a failure only if it is interrupted or `axum::serve` returns, whatever
  -- the tasks meet.
  pub main-Stops : main env parse_socket vars up found chans clock order a ≡ some (ok tt) → Stops a
  unfolding main
  main-Stops h = go (prepare parse_socket vars up) h
    where
      go :
          (r : Result Failure (Config SocketAddr × Text))
          → (elim r as (λ _. Option (Result Failure (Unit {0}))) [
            | err e ↦ some (err e)
            | ok (cfg, node_id) ↦ serve_all (env node_id) order a (record {
              world = started (env node_id) cfg (found node_id) chans clock;
              spawned = [];
            })
          ])
            ≡ some (ok tt)
          → Stops a
      go (err e) h = cc
      go (ok (cfg, node_id)) h = serve_all-Stops (env node_id) order a _ h

  -- One accept that fails, of a listener of MQTT or of RESP, ends the whole server with a failure,
  -- unless it ends for the reasons that end it without one: `select!` looks at the task.
  pub main-Refuses :
      (Refuses a.mqtt_accepts × Memᴰ mqtt_task order)
        ⊎ (Refuses a.resp_accepts × Memᴰ resp_task order)
      → (Stops a → ⊥)
      → (f : Failure) × (main env parse_socket vars up found chans clock order a ≡ some (err f))
  unfolding main
  main-Refuses refused no_stop = go (prepare parse_socket vars up)
    where
      go :
          (r : Result Failure (Config SocketAddr × Text))
          → (f : Failure) × ((elim r as (λ _. Option (Result Failure (Unit {0}))) [
            | err e ↦ some (err e)
            | ok (cfg, node_id) ↦ serve_all (env node_id) order a (record {
              world = started (env node_id) cfg (found node_id) chans clock;
              spawned = [];
            })
          ])
              ≡ some (err f))
      go (err e) = (e, refl)
      go (ok (cfg, node_id)) = serve_all-Refuses (env node_id) order a _ refused no_stop
