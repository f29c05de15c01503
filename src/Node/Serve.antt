-- ===== src/Node/Serve.antt =====
-- The listeners: `serve` in mqtt.rs, resp.rs and http.rs. What the operating system answers to
-- `bind` and `accept` is given, as far as it has answered.
use geomqtt.Base.{List, [], ◌∷◌, ◌++◌, Option, none, some, Text}
use geomqtt.Base.Results.{Result, ok, err}
use geomqtt.Mqtt.Connection.{accept_tcp, accept_ws}
use geomqtt.World.{Env, World}

-- How a task stands: it runs, it has returned, or it has panicked.
pub data Task : Type 0 where
  running : Task
  returned : Result Text (Unit {0}) → Task
  panicked : Task

-- The listeners of MQTT, and the one of RESP.
pub data Listener : Type 0 where
  tcp ws resp : Listener

-- What the tasks act on: the state that they share, and the connections that have a task of their
-- own (`tokio::spawn`), the latest at the end.
pub record Server (env : Env) : Type 0 where
  pub world : World env
  pub spawned : List Listener

module _ (env : Env) where
  -- What is counted before the task of a connection is spawned.
  unfoldable pub counted : Listener → World env → World env
  counted tcp w = accept_tcp env w
  counted ws w = accept_ws env w
  counted resp w = w

  unfoldable pub spawn : Listener → Server env → Server env
  spawn l s = record { world = counted l s.world; spawned = s.spawned ++ l ∷ [] }

  -- The loops that accept, each listener with its answers, in the order in which they come: the
  -- first `?` ends them.
  unfoldable pub accept_loop :
      List (Listener × Result Text (Unit {0})) → Server env → Task × Server env
  accept_loop [] s = (running, s)
  accept_loop ((l, ok _) ∷ answers) s = accept_loop answers (spawn l s)
  accept_loop ((l, err e) ∷ answers) s = (returned (err e), s)

  -- `mqtt::serve`, where `try_join!` runs the loops of both listeners until one of them fails.
  unfoldable pub serve_mqtt :
      Result Text (Unit {0})
      → Result Text (Unit {0})
      → List (Listener × Result Text (Unit {0}))
      → Server env
      → Task × Server env
  serve_mqtt (err e) bind_ws answers s = (returned (err e), s)
  serve_mqtt (ok _) (err e) answers s = (returned (err e), s)
  serve_mqtt (ok _) (ok _) answers s = accept_loop answers s

  -- `resp::serve`
  unfoldable pub serve_resp :
      Result Text (Unit {0})
      → List (Listener × Result Text (Unit {0}))
      → Server env
      → Task × Server env
  serve_resp (err e) answers s = (returned (err e), s)
  serve_resp (ok _) answers s = accept_loop answers s

-- `http::serve`, where `axum::serve` runs or has returned.
unfoldable pub serve_http : Result Text (Unit {0}) → Option (Result Text (Unit {0})) → Task
serve_http (err e) served = returned (err e)
serve_http (ok _) none = running
serve_http (ok _) (some (err e)) = returned (err e)
serve_http (ok _) (some (ok _)) = returned (ok tt)
