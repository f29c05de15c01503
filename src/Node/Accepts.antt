-- ===== src/Node/Accepts.antt =====
-- mqtt.rs, resp.rs: what the loops over `accept` do.
use geomqtt.Base.{
  ℕ, ◌+◌, ◌%◌, ◌^◌, ◌<◌, List, [], ◌∷◌, ◌++◌, append-nil, append_assoc, ◌≡◌, refl, sym, ap, ◌∙◌,
  arith, Text,
}
use geomqtt.Base.Results.{Result, ok, err}
use geomqtt.Metrics.{inc}
use geomqtt.Mqtt.Connection.{accept_tcp, accept_ws}
use geomqtt.Node.Serve.{
  running, returned, Listener, tcp, ws, resp, Server, counted, spawn, accept_loop, serve_mqtt,
}
use geomqtt.World.{Env}

-- A listener that has accepted.
abbrev pub accepts : List Listener → List (Listener × Result Text (Unit {0}))
accepts [] = []
accepts (l ∷ ls) = (l, ok tt) ∷ accepts ls

-- How many are connections over TCP, and over WebSockets.
abbrev pub over_tcp : List Listener → ℕ
over_tcp [] = 0
over_tcp (tcp ∷ ls) = over_tcp ls + 1
over_tcp (ws ∷ ls) = over_tcp ls
over_tcp (resp ∷ ls) = over_tcp ls

abbrev pub over_ws : List Listener → ℕ
over_ws [] = 0
over_ws (tcp ∷ ls) = over_ws ls
over_ws (ws ∷ ls) = over_ws ls + 1
over_ws (resp ∷ ls) = over_ws ls

counts_on : (m n : ℕ) → (inc m + n) % 2 ^ 64 ≡ (m + (n + 1)) % 2 ^ 64
counts_on m n = omega arith

module _ (env : Env) where
  -- The state once connections are accepted.
  abbrev pub taken : List Listener → Server env → Server env
  taken [] s = s
  taken (l ∷ ls) s = taken ls (spawn env l s)

  accept_loop-accepts :
      (ls : List Listener) (answers : List (Listener × Result Text (Unit {0}))) (s : Server env)
      → accept_loop env (accepts ls ++ answers) s ≡ accept_loop env answers (taken ls s)
  unfolding accept_loop
  accept_loop-accepts [] answers s = refl
  accept_loop-accepts (l ∷ ls) answers s = accept_loop-accepts ls answers (spawn env l s)

  spawned_all : (ls : List Listener) (s : Server env) → (taken ls s).spawned ≡ s.spawned ++ ls
  unfolding spawn
  spawned_all [] s = sym (append-nil s.spawned)
  spawned_all (l ∷ ls) s = spawned_all ls (spawn env l s) ∙ append_assoc s.spawned (l ∷ []) ls

  broker_same : (ls : List Listener) (s : Server env) → (taken ls s).world.broker ≡ s.world.broker
  unfolding spawn counted accept_tcp accept_ws
  broker_same [] s = refl
  broker_same (tcp ∷ ls) s = broker_same ls (spawn env tcp s)
  broker_same (ws ∷ ls) s = broker_same ls (spawn env ws s)
  broker_same (resp ∷ ls) s = broker_same ls (spawn env resp s)

  abbrev tcp_of : Server env → ℕ
  tcp_of s = s.world.metrics.mqtt_connections_tcp

  abbrev ws_of : Server env → ℕ
  ws_of s = s.world.metrics.mqtt_connections_ws

  tcp_counted :
      (ls : List Listener) (s : Server env)
      → tcp_of s < 2 ^ 64
      → tcp_of (taken ls s) ≡ (tcp_of s + over_tcp ls) % 2 ^ 64
  unfolding spawn counted accept_tcp accept_ws
  tcp_counted [] s h = omega arith
  tcp_counted (tcp ∷ ls) s h =
      tcp_counted ls (spawn env tcp s) (omega arith) ∙ counts_on (tcp_of s) (over_tcp ls)
  tcp_counted (ws ∷ ls) s h = tcp_counted ls (spawn env ws s) h
  tcp_counted (resp ∷ ls) s h = tcp_counted ls (spawn env resp s) h

  ws_counted :
      (ls : List Listener) (s : Server env)
      → ws_of s < 2 ^ 64
      → ws_of (taken ls s) ≡ (ws_of s + over_ws ls) % 2 ^ 64
  unfolding spawn counted accept_tcp accept_ws
  ws_counted [] s h = omega arith
  ws_counted (tcp ∷ ls) s h = ws_counted ls (spawn env tcp s) h
  ws_counted (ws ∷ ls) s h =
      ws_counted ls (spawn env ws s) (omega arith) ∙ counts_on (ws_of s) (over_ws ls)
  ws_counted (resp ∷ ls) s h = ws_counted ls (spawn env resp s) h

  -- Once the listeners of MQTT are bound, every connection that they accept before the first
  -- failure has a task of its own, in the order of the answers, and is counted with its transport,
  -- modulo 2 ^ 64; the broker is as before. Up to there the loops run. The first failure of either
  -- listener ends both, and its error is returned. This holds if the counters are below 2 ^ 64.
  pub serve_mqtt-accepts :
      (ls : List Listener) (l : Listener) (e : Text)
      (more : List (Listener × Result Text (Unit {0}))) (s : Server env)
      → s.world.metrics.mqtt_connections_tcp < 2 ^ 64
      → s.world.metrics.mqtt_connections_ws < 2 ^ 64
      → (s' : Server env) × (serve_mqtt env (ok tt) (ok tt) (accepts ls) s ≡ (running, s'))
        × (serve_mqtt env (ok tt) (ok tt) (accepts ls ++ (l, err e) ∷ more) s
            ≡ (returned (err e), s'))
        × (s'.spawned ≡ s.spawned ++ ls)
        × (s'.world.metrics.mqtt_connections_tcp
            ≡ (s.world.metrics.mqtt_connections_tcp + over_tcp ls) % 2 ^ 64)
        × (s'.world.metrics.mqtt_connections_ws
            ≡ (s.world.metrics.mqtt_connections_ws + over_ws ls) % 2 ^ 64)
        × (s'.world.broker ≡ s.world.broker)
  unfolding serve_mqtt accept_loop
  serve_mqtt-accepts ls l e more s below below' = (
    taken ls s,
    ap (λ answers. accept_loop env answers s) (sym (append-nil (accepts ls)))
        ∙ accept_loop-accepts ls [] s,
    accept_loop-accepts ls ((l, err e) ∷ more) s,
    spawned_all ls s,
    tcp_counted ls s below,
    ws_counted ls s below',
    broker_same ls s,
  )
