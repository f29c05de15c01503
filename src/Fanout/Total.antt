-- ===== src/Fanout/Total.antt =====
-- fanout.rs: nothing that is published after a write panics, as long as packets can be encoded, and the
-- sessions and their filters stay as they are.
use geomqtt.Base.{
  ℕ, List, [], ◌∷◌, Option, none, some, Bool, Text, Bytes, ◌≡◌, refl, arith, ◌&&◌, ◌==◌,
}
use geomqtt.Payload.Attrs.{Attrs, is_empty}
use geomqtt.Payload.Defs.{TilePayload, ObjectPayload}
use geomqtt.Broker.Defs
use geomqtt.Broker.Defs.{Mqtt}
use geomqtt.Fanout.Defs.{
  Fanout, tile_at, publish_tile, influx_position, influx_attr, publish_object, publish_add,
  publish_move, publish_remove, write_tile, on_geo_write, on_geo_remove, publish_attr,
  attr_positions, attr_set, on_attr_tile,
}
use geomqtt.World.{Env, publish_local, now_ms}
use geomqtt.World.Total.{
  IsTotal, IsTotal->>=, IsTotal-for_each, IsTotal-if, IsTotal-option, Gives-elim,
}

-- Every PUBLISH packet can be written.
abbrev pub CanEncode : Env → Type 0
CanEncode env =
    (topic : Text) (body : Bytes)
    → (bytes : Bytes) × (env.mqtt.write_publish topic body ≡ some bytes)

module _ (env : Env) (enc : CanEncode env) where
  open env use {float}
  open float use {F}

  pub publish_local-IsTotal : (topic : Text) (body : Bytes) → IsTotal (publish_local env topic body)
  unfolding publish_local Defs.publish_local Defs.encode_publish
  publish_local-IsTotal topic body w = ground (arith, enc topic body)

  publish_tile-IsTotal :
      (set : Text) (z x y : ℕ) (payload : TilePayload F)
      → IsTotal (publish_tile env set z x y payload)
  unfolding publish_tile
  publish_tile-IsTotal set z x y payload w =
      Gives-elim _ _ _ (publish_local-IsTotal _ _ w) (λ _ _. refl)

  influx_attr-IsTotal :
      (with_influx : Bool) (obid : Text) (payload : ObjectPayload)
      → IsTotal (influx_attr env with_influx obid payload)
  unfolding influx_attr
  influx_attr-IsTotal with_influx obid payload w = ground arith

  influx_position-IsTotal :
      (with_influx : Bool) (set member : Text) (lon lat : F)
      → IsTotal (influx_position env with_influx set member lon lat)
  unfolding influx_position
  influx_position-IsTotal with_influx set member lon lat w = ground arith

  pub publish_object-IsTotal :
      (fanout : Fanout) (obid : Text) (payload : ObjectPayload)
      → IsTotal (publish_object env fanout obid payload)
  unfolding publish_object
  publish_object-IsTotal fanout obid payload w =
      Gives-elim _ _ _ (publish_local-IsTotal _ _ w)
        (λ _ w1. Gives-elim _ _ _ (influx_attr-IsTotal _ _ payload _) (λ _ _. refl))

  publish_add-IsTotal :
      (set member : Text) (lat lng : F) (attrs : Attrs) (t : ℕ × ℕ × ℕ)
      → IsTotal (publish_add env set member lat lng attrs t)
  unfolding publish_add now_ms
  publish_add-IsTotal set member lat lng attrs (z, x, y) w = publish_tile-IsTotal _ _ _ _ _ _

  publish_move-IsTotal :
      (set member : Text) (lat lng : F) (t : ℕ × ℕ × ℕ)
      → IsTotal (publish_move env set member lat lng t)
  unfolding publish_move now_ms
  publish_move-IsTotal set member lat lng (z, x, y) w = publish_tile-IsTotal _ _ _ _ _ _

  publish_remove-IsTotal :
      (set member : Text) (t : ℕ × ℕ × ℕ) → IsTotal (publish_remove env set member t)
  unfolding publish_remove now_ms
  publish_remove-IsTotal set member (z, x, y) w = publish_tile-IsTotal _ _ _ _ _ _

  publish_attr-IsTotal :
      (set obid : Text) (attrs : Attrs) (t : ℕ × ℕ × ℕ)
      → IsTotal (publish_attr env set obid attrs t)
  unfolding publish_attr now_ms
  publish_attr-IsTotal set obid attrs (z, x, y) w = publish_tile-IsTotal _ _ _ _ _ _

  write_tile-IsTotal :
      (set member : Text) (lat lng : F) (attrs : Attrs) (old : List (ℕ × ℕ × ℕ)) (t : ℕ × ℕ × ℕ)
      → IsTotal (write_tile env set member lat lng attrs old t)
  unfolding write_tile
  write_tile-IsTotal set member lat lng attrs old (z, nx, ny) =
      IsTotal-option (tile_at z old) _ _ (publish_add-IsTotal set member lat lng attrs (z, nx, ny))
        (λ o.
          IsTotal-if (o.0 == nx && o.1 == ny) _ _
            (publish_move-IsTotal set member lat lng (z, nx, ny))
            (IsTotal->>= _ _ (publish_remove-IsTotal set member (z, o.0, o.1))
              (λ _. publish_add-IsTotal set member lat lng attrs (z, nx, ny))))

  pub on_geo_write-IsTotal :
      (fanout : Fanout) (set member : Text) (old : Option (F × F)) (new : F × F) (attrs : Attrs)
      → IsTotal (on_geo_write env fanout set member old new attrs)
  unfolding on_geo_write
  on_geo_write-IsTotal fanout set member old (lon, lat) attrs w =
      Gives-elim _ _ _ (influx_position-IsTotal _ set member lon lat w) (λ _ w1.
        Gives-elim _ _ _ (IsTotal-for_each _ _ (write_tile-IsTotal set member lat lon attrs _) w1)
          (λ _ _. refl))

  pub on_geo_remove-IsTotal :
      (fanout : Fanout) (set member : Text) (pos : F × F)
      → IsTotal (on_geo_remove env fanout set member pos)
  unfolding on_geo_remove
  on_geo_remove-IsTotal fanout set member (lon, lat) w =
      Gives-elim _ _ _ (IsTotal-for_each _ _ (publish_remove-IsTotal set member) w) (λ _ _. refl)

  attr_positions-IsTotal :
      (fanout : Fanout) (obid : Text) (attrs : Attrs) (set : Text)
      (positions : Option (List (Option (F × F))))
      → IsTotal (attr_positions env fanout obid attrs set positions)
  unfolding attr_positions
  attr_positions-IsTotal fanout obid attrs set none w = refl
  attr_positions-IsTotal fanout obid attrs set (some []) w = refl
  attr_positions-IsTotal fanout obid attrs set (some (none ∷ r)) w = refl
  attr_positions-IsTotal fanout obid attrs set (some (some (lon, lat) ∷ r)) w =
      IsTotal-for_each _ _ (publish_attr-IsTotal set obid attrs) w

  attr_set-IsTotal :
      (fanout : Fanout) (obid : Text) (attrs : Attrs) (set : Text)
      → IsTotal (attr_set env fanout obid attrs set)
  unfolding attr_set
  attr_set-IsTotal fanout obid attrs set w = attr_positions-IsTotal fanout obid attrs set _ _

  pub on_attr_tile-IsTotal :
      (fanout : Fanout) (obid : Text) (attrs : Attrs) → IsTotal (on_attr_tile env fanout obid attrs)
  unfolding on_attr_tile is_empty
  on_attr_tile-IsTotal fanout obid [] w = refl
  on_attr_tile-IsTotal fanout obid (a ∷ attrs) w =
      IsTotal-option (env.redis.smembers _ w.upstream).1 _ _ (λ _. refl)
        (λ sets. IsTotal-for_each sets _ (attr_set-IsTotal fanout obid (a ∷ attrs))) _
