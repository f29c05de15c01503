-- ===== src/Tests/Startup.antt =====
-- A server with the default settings, as it starts and ends.
use geomqtt.Base.{
  ℕ, List, ◌∷◌, [], Option, none, some, true, false, ◌≡◌, refl, inl, inr, arith, Text, lit,
  parse_uint, trim, split, split_once, trim_end_matches,
}
use mathlib.Core.List.{Memᴰ}
use geomqtt.Base.Results.{Result, ok, err}
use geomqtt.Config.FromEnv.{Config, Environment, env_or, csv, influx_settings, parse_addr, from_env}
use geomqtt.Config.TileSize.{
  count_ones, is_power_of_two, trailing_zeros, check_tile_size, parse_tile_size,
  zoom_offset_for_tile_size,
}
use geomqtt.Config.Zooms.{
  is_filled, or_err, read_token, read_tokens, tokens, up_from, insert_sorted, sort_unstable, dedup,
  dedup_after, parse_zoom_list, saturating_add, effective_zooms,
}
use geomqtt.Topic.{make_node_id, hex, hex_digits, hex_digit}
use geomqtt.Fanout.Total.{CanEncode}
use geomqtt.Node.Accepts.{serve_mqtt-accepts}
use geomqtt.Node.Life.{main-IsServing, main-Stops, main-Refuses}
use geomqtt.Node.Main.{
  Failure, Upstream, context, connect, with_settings, prepare, Branch, resp_task, mqtt_task,
  http_task, bridge_task, ctrl_c, select, Answers, tasks, serve_all, main,
}
use geomqtt.Node.Serve.{running, returned, tcp, ws, resp, Server, serve_mqtt}
use geomqtt.Node.Shutdown.{Stops}
use geomqtt.Tests.Toy.{env, world, chans}
use geomqtt.World.{Env}

serve_mqtt-accepts_example :
    (s' : Server env) × (serve_mqtt env
        (ok tt)
        (ok tt)
        ((tcp, ok tt) ∷ (ws, ok tt) ∷ (tcp, ok tt) ∷ [])
        (record { world = world; spawned = [] })
      ≡ (running, s'))
    × (serve_mqtt env
          (ok tt)
          (ok tt)
          ((tcp, ok tt) ∷ (ws, ok tt) ∷ (tcp, ok tt) ∷ (ws, err (lit "too many open files")) ∷ [])
          (record { world = world; spawned = [] })
        ≡ (returned (err (lit "too many open files")), s'))
    × (s'.spawned ≡ tcp ∷ ws ∷ tcp ∷ [])
    × (s'.world.metrics.mqtt_connections_tcp ≡ 2)
    × (s'.world.metrics.mqtt_connections_ws ≡ 1)
    × (s'.world.broker ≡ world.broker)
serve_mqtt-accepts_example =
    serve_mqtt-accepts env (tcp ∷ ws ∷ tcp ∷ []) ws (lit "too many open files") []
      (record { world = world; spawned = [] }) (omega arith) (omega arith)

abbrev vars : Environment
vars key = none

abbrev parse_socket : Text → Option ℕ
parse_socket t = some 0

abbrev up : Upstream
up = record {
  from_url = λ url. ok tt;
  init_client = ok tt;
  ping = ok tt;
  init_subscriber = ok tt;
  pid = 77;
  nanos = 4711;
}

abbrev answers : Answers
answers = record {
  bind_resp = ok tt;
  bind_tcp = ok tt;
  bind_ws = ok tt;
  bind_http = ok tt;
  resp_accepts = (resp, ok tt) ∷ [];
  mqtt_accepts = (tcp, ok tt) ∷ (ws, ok tt) ∷ [];
  http_served = none;
  subscribed = ok tt;
  received = [];
  interrupted = false;
}

-- The environment of a node.
abbrev node : Text → Env
node id = record env { node_id = id }

abbrev order : List Branch
order = bridge_task ∷ mqtt_task ∷ ctrl_c ∷ resp_task ∷ http_task ∷ []

abbrev settings_of : Result Failure (Config ℕ × Text) → Option (Config ℕ)
settings_of (ok (cfg, id)) = some cfg
settings_of (err e) = none

abbrev prepared : Result Failure (Config ℕ × Text)
prepared = prepare parse_socket vars up

abbrev default_config : Config ℕ
default_config = record {
  redis_url = lit "redis://127.0.0.1:6379";
  resp_addr = 0;
  mqtt_addr = 0;
  mqtt_ws_addr = 0;
  http_addr = 0;
  enrich_attrs = [];
  raw_zooms = 6 ∷ 7 ∷ 8 ∷ 9 ∷ 10 ∷ 11 ∷ 12 ∷ [];
  enrich_zooms = 6 ∷ 7 ∷ 8 ∷ 9 ∷ 10 ∷ 11 ∷ 12 ∷ [];
  tile_size = 256;
  object_key_prefix = lit "obj:";
  influx = none;
}

prepares : prepare parse_socket vars up ≡ ok (default_config, lit "4d-1267")
unfolding prepare with_settings context connect from_env env_or parse_addr csv influx_settings
    parse_tile_size check_tile_size is_power_of_two count_ones trailing_zeros
    zoom_offset_for_tile_size parse_zoom_list read_tokens tokens read_token dedup dedup_after
    effective_zooms insert_sorted is_filled or_err saturating_add sort_unstable up_from parse_uint
    trim split split_once trim_end_matches hex hex_digit hex_digits make_node_id
prepares = refl

can_encode : CanEncode (node (lit "4d-1267"))
can_encode topic body = (_, refl)

main-IsServing_example :
    main node parse_socket vars up (λ id. 0) chans (λ i. i) order answers ≡ none
main-IsServing_example =
    main-IsServing node parse_socket vars up (λ id. 0) chans (λ i. i) order answers default_config
      (lit "4d-1267") prepares can_encode
      (record {
        bound_resp = refl;
        bound_tcp = refl;
        bound_ws = refl;
        bound_http = refl;
        resp_accepted = λ h. h;
        mqtt_accepted = λ h. h;
        http_serves = refl;
        subscribed = refl;
        not_interrupted = refl;
      })

abbrev interrupted : Answers
interrupted = record answers { interrupted = true }

interrupted_ends :
    main node parse_socket vars up (λ id. 0) chans (λ i. i) (ctrl_c ∷ order) interrupted
    ≡ some (ok tt)
unfolding main serve_all select tasks
interrupted_ends = rw (prepares, main) refl

main-Stops_example : Stops interrupted
main-Stops_example =
    main-Stops node parse_socket vars up (λ id. 0) chans (λ i. i) (ctrl_c ∷ order) interrupted
      interrupted_ends

abbrev refused : Answers
refused = record answers {
  mqtt_accepts = (tcp, ok tt) ∷ (tcp, err (lit "too many open files")) ∷ [];
}

main-Refuses_example :
    (f : Failure) × (main node parse_socket vars up (λ id. 0) chans (λ i. i) order refused
      ≡ some (err f))
main-Refuses_example =
    main-Refuses node parse_socket vars up (λ id. 0) chans (λ i. i) order refused
      (inl (tt, Memᴰ.tail (Memᴰ.head refl))) (λ h. elim h [ inl e ↦ cc | inr e ↦ cc ])
