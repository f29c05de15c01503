-- ===== src/Node/Shutdown.antt =====
-- main.rs: how long a server runs, and how it ends.
use geomqtt.Base.{
  List, [], ◌∷◌, Option, none, some, Bool, true, false, ◌≡◌, refl, ◌⊎◌, inl, inr, Text,
  if◌then◌else◌,
}
use mathlib.Core.List.{Memᴰ}
use geomqtt.Base.Results.{Result, ok, err}
use geomqtt.Bridge.Defs.{Received, run_pubsub_bridge}
use geomqtt.Node.Main.{
  Failure, Branch, resp_task, mqtt_task, http_task, bridge_task, ctrl_c, joined, Answers, bridge,
  tasks, serve_all,
}
use geomqtt.Node.Select.{select_from, select_ready}
use geomqtt.Node.Serve.{
  Task, running, returned, panicked, Listener, Server, spawn, accept_loop, serve_mqtt, serve_resp,
  serve_http,
}
use geomqtt.World.{Env, World}

-- An accept that fails.
abbrev pub Refuses : List (Listener × Result Text (Unit {0})) → Type 0
Refuses [] = ⊥
Refuses ((l, ok _) ∷ answers) = Refuses answers
Refuses ((l, err e) ∷ answers) = Unit

-- A task that is not done with its work.
abbrev IsEndless : Task → Type 0
IsEndless (returned (ok _)) = ⊥
IsEndless (returned (err e)) = Unit
IsEndless running = Unit
IsEndless panicked = Unit

-- A task that has failed.
abbrev IsLost : Task → Type 0
IsLost (returned (ok _)) = ⊥
IsLost (returned (err e)) = Unit
IsLost running = ⊥
IsLost panicked = Unit

joined-IsEndless : (t : Task) → IsEndless t → joined t ≡ some (ok tt) → ⊥
unfolding joined
joined-IsEndless running h e = cc
joined-IsEndless panicked h e = cc
joined-IsEndless (returned (ok _)) h e = h
joined-IsEndless (returned (err x)) h e = cc

joined-IsLost : (t : Task) → IsLost t → (f : Failure) × (joined t ≡ some (err f))
unfolding joined
joined-IsLost running h = elim h [ ]
joined-IsLost panicked h = (_, refl)
joined-IsLost (returned (ok _)) h = elim h [ ]
joined-IsLost (returned (err x)) h = (_, refl)

-- What ends the server without a failure.
abbrev pub Stops : Answers → Type 0
Stops a = (a.interrupted ≡ true) ⊎ (a.http_served ≡ some (ok tt))

module _ (env : Env) where
  accept_loop-IsEndless :
      (answers : List (Listener × Result Text (Unit {0}))) (s : Server env)
      → IsEndless (accept_loop env answers s).0
  unfolding accept_loop
  accept_loop-IsEndless [] s = tt
  accept_loop-IsEndless ((l, ok _) ∷ answers) s = accept_loop-IsEndless answers (spawn env l s)
  accept_loop-IsEndless ((l, err e) ∷ answers) s = tt

  accept_loop-IsLost :
      (answers : List (Listener × Result Text (Unit {0}))) (s : Server env)
      → Refuses answers
      → IsLost (accept_loop env answers s).0
  unfolding accept_loop
  accept_loop-IsLost [] s h = h
  accept_loop-IsLost ((l, ok _) ∷ answers) s h = accept_loop-IsLost answers (spawn env l s) h
  accept_loop-IsLost ((l, err e) ∷ answers) s h = tt

  pub accept_loop_runs :
      (answers : List (Listener × Result Text (Unit {0}))) (s : Server env)
      → (Refuses answers → ⊥)
      → (accept_loop env answers s).0 ≡ running
  unfolding accept_loop
  accept_loop_runs [] s h = refl
  accept_loop_runs ((l, ok _) ∷ answers) s h = accept_loop_runs answers (spawn env l s) h
  accept_loop_runs ((l, err e) ∷ answers) s h = elim (h tt) [ ]

  serve_mqtt-IsEndless :
      (tcp ws : Result Text (Unit {0})) (answers : List (Listener × Result Text (Unit {0})))
      (s : Server env)
      → IsEndless (serve_mqtt env tcp ws answers s).0
  unfolding serve_mqtt
  serve_mqtt-IsEndless (err e) ws answers s = tt
  serve_mqtt-IsEndless (ok _) (err e) answers s = tt
  serve_mqtt-IsEndless (ok _) (ok _) answers s = accept_loop-IsEndless answers s

  serve_mqtt-IsLost :
      (tcp ws : Result Text (Unit {0})) (answers : List (Listener × Result Text (Unit {0})))
      (s : Server env)
      → Refuses answers
      → IsLost (serve_mqtt env tcp ws answers s).0
  unfolding serve_mqtt
  serve_mqtt-IsLost (err e) ws answers s h = tt
  serve_mqtt-IsLost (ok _) (err e) answers s h = tt
  serve_mqtt-IsLost (ok _) (ok _) answers s h = accept_loop-IsLost answers s h

  serve_resp-IsEndless :
      (bound : Result Text (Unit {0})) (answers : List (Listener × Result Text (Unit {0})))
      (s : Server env)
      → IsEndless (serve_resp env bound answers s).0
  unfolding serve_resp
  serve_resp-IsEndless (err e) answers s = tt
  serve_resp-IsEndless (ok _) answers s = accept_loop-IsEndless answers s

  serve_resp-IsLost :
      (bound : Result Text (Unit {0})) (answers : List (Listener × Result Text (Unit {0})))
      (s : Server env)
      → Refuses answers
      → IsLost (serve_resp env bound answers s).0
  unfolding serve_resp
  serve_resp-IsLost (err e) answers s h = tt
  serve_resp-IsLost (ok _) answers s h = accept_loop-IsLost answers s h

  bridge-IsEndless :
      (subscribed : Result Text (Unit {0})) (received : List Received) (s : Server env)
      → IsEndless (bridge env subscribed received s).0
  unfolding bridge
  bridge-IsEndless (err e) received s = tt
  bridge-IsEndless (ok _) received s = go (run_pubsub_bridge env received s.world)
    where
      go :
          (o : Option (Unit {0} × World env))
          → IsEndless
              (elim o as (λ _. Task × Server env) [
                | none ↦ (panicked, s)
                | some (_, w) ↦ (running, record s { world = w })
              ]).0
      go none = tt
      go (some x) = tt

  http-Stops :
      (bound : Result Text (Unit {0})) (served : Option (Result Text (Unit {0})))
      → joined (serve_http bound served) ≡ some (ok tt)
      → served ≡ some (ok tt)
  unfolding joined serve_http
  http-Stops (err e) served h = cc
  http-Stops (ok _) none h = cc
  http-Stops (ok _) (some (err e)) h = cc
  http-Stops (ok _) (some (ok _)) h = refl

  interrupted-Stops :
      (b : Bool)
      → if◌then◌else◌ {A = Option (Result Failure (Unit {0}))} b (some (ok tt)) none ≡ some (ok tt)
      → b ≡ true
  interrupted-Stops true h = refl
  interrupted-Stops false h = cc

  tasks-Stops :
      (a : Answers) (s : Server env) (b : Branch) → (tasks env a s).0 b ≡ some (ok tt) → Stops a
  unfolding tasks
  tasks-Stops a s resp_task h =
      elim (joined-IsEndless _ (serve_resp-IsEndless a.bind_resp a.resp_accepts s) h) [ ]
  tasks-Stops a s mqtt_task h =
      elim (joined-IsEndless _ (serve_mqtt-IsEndless a.bind_tcp a.bind_ws a.mqtt_accepts _) h) [ ]
  tasks-Stops a s http_task h = inr (http-Stops a.bind_http a.http_served h)
  tasks-Stops a s bridge_task h =
      elim (joined-IsEndless _ (bridge-IsEndless a.subscribed a.received _) h) [ ]
  tasks-Stops a s ctrl_c h = inl (interrupted-Stops a.interrupted h)

  pub serve_all-Stops :
      (order : List Branch) (a : Answers) (s : Server env)
      → serve_all env order a s ≡ some (ok tt)
      → Stops a
  unfolding serve_all
  serve_all-Stops order a s h = let (b, e) = select_from order _ (ok tt) h in tasks-Stops a s b e

  failed_or_Stops :
      (a : Answers) (o : Option (Result Failure (Unit {0})))
      → (q : Result Failure (Unit {0})) × (o ≡ some q)
      → (o ≡ some (ok tt) → Stops a)
      → (Stops a → ⊥)
      → (f : Failure) × (o ≡ some (err f))
  failed_or_Stops a o (ok _, e) h no_stop = elim (no_stop (h e)) [ ]
  failed_or_Stops a o (err f, e) h no_stop = (f, e)

  pub serve_all-Refuses :
      (order : List Branch) (a : Answers) (s : Server env)
      → (Refuses a.mqtt_accepts × Memᴰ mqtt_task order)
        ⊎ (Refuses a.resp_accepts × Memᴰ resp_task order)
      → (Stops a → ⊥)
      → (f : Failure) × (serve_all env order a s ≡ some (err f))
  unfolding serve_all tasks
  serve_all-Refuses order a s (inl (refused, polled)) no_stop =
      let (f, e) =
        joined-IsLost _ (serve_mqtt-IsLost a.bind_tcp a.bind_ws a.mqtt_accepts _ refused) in
      failed_or_Stops a _ (select_ready order (tasks env a s).0 mqtt_task polled (err f) e)
        (serve_all-Stops order a s) no_stop
  serve_all-Refuses order a s (inr (refused, polled)) no_stop =
      let (f, e) = joined-IsLost _ (serve_resp-IsLost a.bind_resp a.resp_accepts s refused) in
      failed_or_Stops a _ (select_ready order (tasks env a s).0 resp_task polled (err f) e)
        (serve_all-Stops order a s) no_stop
