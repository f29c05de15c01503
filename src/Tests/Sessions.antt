-- ===== src/Tests/Sessions.antt =====
-- The broker at two sessions.
use geomqtt.Base.{[], ◌∷◌, ◌++◌, none, some, true, ◌≡◌, refl, arith, lit, Text}
use geomqtt.Broker.Defs.{Broker, Session, new, register, subscribe}
use geomqtt.Base.Assoc.{lookup, insert}
use geomqtt.Broker.Invariant.{IsValid}
use geomqtt.Broker.Reach.{Reach, start, next, registers, subscribes}
use geomqtt.Coord.Tile.{tiles_for_point}
use geomqtt.Fanout.Defs.{Fanout, tiles_of, on_geo_write}
use geomqtt.Fanout.Plan.{plan}
use geomqtt.Fanout.Received.{packets_of, on_geo_write-packets_of}
use geomqtt.Fanout.Total.{CanEncode}
use geomqtt.World.{World}
use geomqtt.Tests.Toy.{broker, env, world, whole}

abbrev pub tile : Text
tile = lit "geo/cars/1/0/0"

-- Two registrations and a subscription.
abbrev grown : Broker
grown = subscribe (register (register new 10).0 11).0 1 tile

grown-Reach : Reach grown
unfolding register insert
grown-Reach =
    next
      (next (next start (registers 10 (omega arith) tt))
        (registers 11 (omega arith) (omega arith, tt)))
      (subscribes 1 tile)

pub broker-IsValid : IsValid broker
broker-IsValid = record {
  ids_below = ground arith;
  ids_apart = ground arith;
  channels_apart = ground arith;
  filters_apart = ground arith;
}

pub can_encode : CanEncode env
can_encode topic body = (_, refl)

abbrev pub session : Session
session = record { outbound = 10; subs = tile ∷ [] }

abbrev zooms : Fanout
zooms = record { enrich_zooms = 1 ∷ []; with_influx = true }

on_geo_write-packets_of_example :
    (w' : World env) × (on_geo_write env zooms (lit "cars") (lit "v1") none (200, 10) [] world
      ≡ some (tt, w'))
    × ((w'.chans 10).queue
        ≡ []
          ++ packets_of env can_encode 1 session
              (lit "cars")
              (lit "v1")
              10
              200
              []
              (plan (tiles_of env (1 ∷ []) none) (tiles_for_point whole (1 ∷ []) 10 200))
              world.clock)
unfolding lookup
on_geo_write-packets_of_example =
    on_geo_write-packets_of env can_encode 1 session zooms (lit "cars") (lit "v1") none 200 10 []
      world broker-IsValid refl refl
