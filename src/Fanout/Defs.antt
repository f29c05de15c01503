-- ===== src/Fanout/Defs.antt =====
-- fanout.rs: what is published after a write.
use geomqtt.Base.{ℕ, List, [], ◌∷◌, Option, none, some, Bool, ◌&&◌, Text, ◌==◌, if◌then◌else◌}
use geomqtt.Payload.Attrs.{Attrs, is_empty}
use geomqtt.Payload.Defs.{TilePayload, ObjectPayload, tile_fields, object_fields}
use geomqtt.Topic.{
  tile_topic, object_topic, redis_tile_channel, redis_object_channel, inset_key, build_envelope,
}
use geomqtt.Coord.Tile.{tiles_for_point}
use geomqtt.Influx.Queue
use geomqtt.Metrics.{inc}
use geomqtt.World.{Env, M, ◌>>=◌, ◌>>◌, pure, for_each, count, now_ms, upstream, publish_local}

-- The fields of `Fanout` that are no shared handles; the sink is there if `with_influx` is set
-- and the world has a queue.
pub record Fanout : Type 0 where
  pub enrich_zooms : List ℕ
  pub with_influx : Bool

-- `old_tiles.iter().find(|(oz, _, _)| *oz == z)`
unfoldable pub tile_at : ℕ → List (ℕ × ℕ × ℕ) → Option (ℕ × ℕ)
tile_at z [] = none
tile_at z ((oz, ox, oy) ∷ rest) = if oz == z then some (ox, oy) else tile_at z rest

module _ (env : Env) where
  open env use {float, to_vec, node_id, redis}
  open float use {F, is_finite, show_f64}

  unfoldable pub publish_tile : Text → ℕ → ℕ → ℕ → TilePayload F → M env (Unit {0})
  publish_tile set z x y payload = do
    let body = to_vec (tile_fields payload)
    publish_local env (tile_topic set z x y) body
    count env (λ m. record m { tile_fanouts = inc m.tile_fanouts })
    upstream env (redis.publish (redis_tile_channel set z x y) (build_envelope node_id body))
    pure tt

  -- A finite float as it is printed.
  unfoldable pub finite : F → Option Text
  finite v = if is_finite v then some (show_f64 v) else none

  unfoldable pub influx_position : Bool → Text → Text → F → F → M env (Unit {0})
  influx_position with_influx set member lon lat w = elim w.influx [
    | none ↦ some (tt, w)
    | some q ↦
        if with_influx
        then (let (q', m) = Queue.position set member (finite lon) (finite lat) q w.metrics in
            some (tt, record w { influx = some q'; metrics = m }))
        else some (tt, w)
  ]

  -- `if let (Some(influx), ObjectPayload::Attr { attrs, .. })`
  unfoldable pub influx_attr : Bool → Text → ObjectPayload → M env (Unit {0})
  influx_attr with_influx obid (ObjectPayload.attr id attrs ts) w = elim w.influx [
    | none ↦ some (tt, w)
    | some q ↦
        if with_influx
        then (let (q', m) = Queue.attr obid attrs q w.metrics in
            some (tt, record w { influx = some q'; metrics = m }))
        else some (tt, w)
  ]
  influx_attr with_influx obid _ w = some (tt, w)

  unfoldable pub publish_object : Fanout → Text → ObjectPayload → M env (Unit {0})
  publish_object fanout obid payload = do
    let body = to_vec (object_fields payload)
    publish_local env (object_topic obid) body
    count env (λ m. record m { object_fanouts = inc m.object_fanouts })
    influx_attr fanout.with_influx obid payload
    upstream env (redis.publish (redis_object_channel obid) (build_envelope node_id body))
    pure tt

  unfoldable pub publish_add : Text → Text → F → F → Attrs → ℕ × ℕ × ℕ → M env (Unit {0})
  publish_add set member lat lng attrs (z, x, y) = do
    ts ← now_ms env
    publish_tile set z x y (TilePayload.add member lat lng attrs ts)

  unfoldable pub publish_move : Text → Text → F → F → ℕ × ℕ × ℕ → M env (Unit {0})
  publish_move set member lat lng (z, x, y) = do
    ts ← now_ms env
    publish_tile set z x y (TilePayload.move member lat lng ts)

  unfoldable pub publish_remove : Text → Text → ℕ × ℕ × ℕ → M env (Unit {0})
  publish_remove set member (z, x, y) = do
    ts ← now_ms env
    publish_tile set z x y (TilePayload.remove member ts)

  -- One round of the loop over the new tiles.
  unfoldable pub write_tile :
      Text → Text → F → F → Attrs → List (ℕ × ℕ × ℕ) → ℕ × ℕ × ℕ → M env (Unit {0})
  write_tile set member lat lng attrs old_tiles (z, nx, ny) = elim (tile_at z old_tiles) [
    | none ↦ publish_add set member lat lng attrs (z, nx, ny)
    | some (ox, oy) ↦
        if ox == nx && oy == ny then publish_move set member lat lng (z, nx, ny) else (do
          publish_remove set member (z, ox, oy)
          publish_add set member lat lng attrs (z, nx, ny))
  ]

  unfoldable pub tiles_of : List ℕ → Option (F × F) → List (ℕ × ℕ × ℕ)
  tiles_of zooms none = []
  tiles_of zooms (some (lon, lat)) = tiles_for_point float zooms lat lon

  unfoldable pub on_geo_write :
      Fanout → Text → Text → Option (F × F) → F × F → Attrs → M env (Unit {0})
  on_geo_write fanout set member old_pos (new_lon, new_lat) attrs = do
    influx_position fanout.with_influx set member new_lon new_lat
    let new_tiles = tiles_for_point float fanout.enrich_zooms new_lat new_lon
    let old_tiles = tiles_of fanout.enrich_zooms old_pos
    for_each new_tiles (write_tile set member new_lat new_lon attrs old_tiles)
    upstream env (redis.sadd (inset_key member) set)
    pure tt

  unfoldable pub on_geo_remove : Fanout → Text → Text → F × F → M env (Unit {0})
  on_geo_remove fanout set member (lon, lat) = do
    for_each (tiles_for_point float fanout.enrich_zooms lat lon) (publish_remove set member)
    upstream env (redis.srem (inset_key member) set)
    pure tt

  unfoldable pub publish_attr : Text → Text → Attrs → ℕ × ℕ × ℕ → M env (Unit {0})
  publish_attr set obid attrs (z, x, y) = do
    ts ← now_ms env
    publish_tile set z x y (TilePayload.attr obid attrs ts)

  -- What is done with the answer to `GEOPOS`.
  unfoldable pub attr_positions :
      Fanout → Text → Attrs → Text → Option (List (Option (F × F))) → M env (Unit {0})
  attr_positions fanout obid attrs set (some (some (lon, lat) ∷ rest)) =
      for_each (tiles_for_point float fanout.enrich_zooms lat lon) (publish_attr set obid attrs)
  attr_positions fanout obid attrs set _ = pure tt

  -- One round of the loop over the sets that hold the object.
  unfoldable pub attr_set : Fanout → Text → Attrs → Text → M env (Unit {0})
  attr_set fanout obid attrs set = do
    positions ← upstream env (redis.geopos set (obid ∷ []))
    attr_positions fanout obid attrs set positions

  unfoldable pub on_attr_tile : Fanout → Text → Attrs → M env (Unit {0})
  on_attr_tile fanout obid attrs = if is_empty attrs then pure tt else (do
    answer ← upstream env (redis.smembers (inset_key obid))
    elim answer [ none ↦ pure tt | some sets ↦ for_each sets (attr_set fanout obid attrs) ])
