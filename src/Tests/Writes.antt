-- ===== src/Tests/Writes.antt =====
-- Writes and commands in the small environment.
use geomqtt.Base.{[], ◌∷◌, some, true, ◌≡◌, refl, lit, Text, text_eq, from_utf8_lossy}
use geomqtt.Topic.{inset_key}
use geomqtt.Coord.Tile.{tile_for_coord, tiles_for_point}
use geomqtt.Fanout.Defs.{Fanout, tiles_of}
use geomqtt.Fanout.Plan.{plan}
use geomqtt.Fanout.View.{after, on_tiles, after-geo_write}
use geomqtt.Fanout.Defs.{on_geo_remove}
use geomqtt.Fanout.Plan.{removes}
use geomqtt.Base.{map, false}
use geomqtt.Fanout.Received.{packets_of, told_all}
use geomqtt.Fanout.Removal.{on_geo_remove-packets_of}
use geomqtt.Base.Assoc.{lookup}
use geomqtt.Base.{◌++◌}
use geomqtt.Tests.Sessions.{session, broker-IsValid}
use geomqtt.Fanout.Total.{CanEncode}
use geomqtt.Resp.Frame.{Resp2Frame, Resp2Frames}
use geomqtt.Resp.Args.{to_ascii_uppercase, frame_to_args}
use geomqtt.Mqtt.Attributes.{Settings}
use geomqtt.Resp.Handle.{
  run_args, run_command, prefetch, forward, after_answer, answer_frame, handle_command,
}
use geomqtt.Resp.Total.{handle_command-answers}
use geomqtt.Resp.Failure.{IsUnpublished, handle_command-error}
use geomqtt.World.{World}
use geomqtt.Tests.Toy.{whole, env, world}

after-geo_write_example :
    after
      (1, 0, 0)
      (plan (tiles_of env (1 ∷ 2 ∷ []) (some (0, 10))) (tiles_for_point whole (1 ∷ 2 ∷ []) 200 10))
      true
    ≡ on_tiles (1, 0, 0) (tiles_for_point whole (1 ∷ 2 ∷ []) 200 10)
unfolding tiles_of tiles_for_point tile_for_coord
after-geo_write_example = after-geo_write env (1 ∷ 2 ∷ []) (some (0, 10)) 10 200 (1, 0, 0) true refl

abbrev fanout : Fanout
fanout = record { enrich_zooms = 1 ∷ 2 ∷ []; with_influx = true }

abbrev pub settings : Settings
settings = record {
  enrich_attrs = lit "k" ∷ [];
  enrich_zooms = 1 ∷ 2 ∷ [];
  object_key_prefix = lit "obj:";
}

abbrev command : Text → Resp2Frame → Resp2Frame
command name more =
    Resp2Frame.array
      (Resp2Frames.cons (Resp2Frame.bulk_string name) (Resp2Frames.cons more Resp2Frames.nil))

can_encode : CanEncode env
can_encode topic body = (_, refl)

-- A GEOADD with no member.
handle_command-answers_example :
    (out : Resp2Frame × World env) × (handle_command env settings
        (command (lit "GEOADD") (Resp2Frame.bulk_string (lit "cars")))
        world
      ≡ some out)
handle_command-answers_example =
    handle_command-answers env settings can_encode
      (command (lit "GEOADD") (Resp2Frame.bulk_string (lit "cars"))) world

abbrev failed : World env
failed = record world { upstream = 1; metrics = record world.metrics { resp_commands = 1 } }

fails :
    handle_command env settings (command (lit "FAIL") (Resp2Frame.bulk_string (lit "x"))) world
    ≡ some (Resp2Frame.error (lit "ERR upstream: refused"), failed)
unfolding handle_command run_args frame_to_args run_command prefetch text_eq to_ascii_uppercase
    from_utf8_lossy forward after_answer answer_frame
fails = refl

handle_command-error_example : IsUnpublished env settings world failed
handle_command-error_example =
    handle_command-error env settings (command (lit "FAIL") (Resp2Frame.bulk_string (lit "x")))
      (lit "ERR upstream: refused") world failed fails

on_geo_remove-packets_of_example :
    (w' : World env) × (on_geo_remove env fanout (lit "cars") (lit "v1") (200, 10) world
      ≡ some (tt, w'))
    × ((w'.chans 10).queue
        ≡ []
          ++ packets_of env can_encode 1 session
              (lit "cars")
              (lit "v1")
              10
              200
              []
              (map removes (tiles_for_point whole (1 ∷ 2 ∷ []) 10 200))
              world.clock)
    × (w'.upstream
        ≡ (env.redis.srem (inset_key (lit "v1")) (lit "cars") (
            told_all env can_encode 1 session
              (lit "cars")
              (lit "v1")
              10
              200
              []
              (map removes (tiles_for_point whole (1 ∷ 2 ∷ []) 10 200))
              world.clock
              0)).0)
    × (after (1, 1, 0) (map removes (tiles_for_point whole (1 ∷ 2 ∷ []) 10 200)) true ≡ false)
unfolding tiles_for_point tile_for_coord lookup
on_geo_remove-packets_of_example =
    on_geo_remove-packets_of env can_encode 1 session fanout (lit "cars") (lit "v1") 200 10 world
      (1, 1, 0) true broker-IsValid refl refl refl
