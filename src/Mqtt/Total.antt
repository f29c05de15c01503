-- ===== src/Mqtt/Total.antt =====
-- mqtt.rs: a snapshot never panics, and leaves the sessions and their filters alone, as long as
-- packets can be encoded.
use geomqtt.Base.{ℕ, List, [], ◌∷◌, Option, none, some, refl, arith, Text, Bytes}
use geomqtt.Broker.Defs
use geomqtt.Fanout.Total.{CanEncode}
use geomqtt.Mqtt.Attributes.{Settings, or_empty}
use geomqtt.Mqtt.Geo.{GeoHit}
use geomqtt.Mqtt.Quiet.{hmget_enrich-IsQuiet, hgetall-IsQuiet, geosearch_box-IsQuiet}
use geomqtt.Mqtt.Snapshot.{
  encoded, snapshot_hit, snapshot_hits, snapshot_tile, snapshot_attrs, snapshot_object,
  snapshot_for_filter,
}
use geomqtt.Payload.Attrs.{Attrs}
use geomqtt.Topic.{parse_tile_filter, parse_object_filter}
use geomqtt.World.{Env, now_ms, send_direct}
use geomqtt.World.Quiet.{IsQuiet-IsTotal}
use geomqtt.World.Total.{IsTotal, Gives-elim, IsTotal-for_each, IsTotal-option}

module _ (env : Env) (cfg : Settings) (enc : CanEncode env) where
  open env use {float}
  open float use {F}

  encoded-IsTotal : (topic : Text) (body : Bytes) → IsTotal (encoded env cfg topic body)
  unfolding encoded Defs.encode_publish
  encoded-IsTotal topic body w = ground (arith, enc topic body)

  snapshot_hit-IsTotal :
      (topic : Text) (session_id : ℕ) (hit : GeoHit F)
      → IsTotal (snapshot_hit env cfg topic session_id hit)
  unfolding snapshot_hit now_ms send_direct
  snapshot_hit-IsTotal topic session_id hit w =
      Gives-elim _ _ _ (IsQuiet-IsTotal env _ (hmget_enrich-IsQuiet env cfg hit.member) w)
        (λ attrs w1. Gives-elim _ _ _ (encoded-IsTotal topic _ _) (λ bytes w2. refl))

  snapshot_hits-IsTotal :
      (topic : Text) (session_id : ℕ) (hits : Option (List (GeoHit F)))
      → IsTotal (snapshot_hits env cfg topic session_id hits)
  unfolding snapshot_hits
  snapshot_hits-IsTotal topic session_id none w = refl
  snapshot_hits-IsTotal topic session_id (some hits) w =
      Gives-elim _ _ _ (IsTotal-for_each hits _ (snapshot_hit-IsTotal topic session_id) w)
        (λ _ _. refl)

  snapshot_tile-IsTotal :
      (set : Text) (z x y session_id : ℕ) → IsTotal (snapshot_tile env cfg set z x y session_id)
  unfolding snapshot_tile
  snapshot_tile-IsTotal set z x y session_id w =
      Gives-elim _ _ _ (IsQuiet-IsTotal env _ (geosearch_box-IsQuiet env set _) w)
        (λ hits. snapshot_hits-IsTotal _ session_id hits)

  snapshot_attrs-IsTotal :
      (obid : Text) (session_id : ℕ) (attrs : Attrs)
      → IsTotal (snapshot_attrs env cfg obid session_id attrs)
  unfolding snapshot_attrs now_ms send_direct
  snapshot_attrs-IsTotal obid session_id [] w = refl
  snapshot_attrs-IsTotal obid session_id (a ∷ attrs) w =
      Gives-elim _ _ _ (encoded-IsTotal _ _ _) (λ _ _. refl)

  snapshot_object-IsTotal :
      (obid : Text) (session_id : ℕ) → IsTotal (snapshot_object env cfg obid session_id)
  unfolding snapshot_object
  snapshot_object-IsTotal obid session_id w =
      Gives-elim _ _ _ (IsQuiet-IsTotal env _ (hgetall-IsQuiet env cfg obid) w)
        (λ attrs. snapshot_attrs-IsTotal obid session_id (or_empty attrs))

  pub snapshot_for_filter-IsTotal :
      (filter : Text) (session_id : ℕ) → IsTotal (snapshot_for_filter env cfg filter session_id)
  unfolding snapshot_for_filter
  snapshot_for_filter-IsTotal filter session_id =
      IsTotal-option (parse_tile_filter filter) _ _
        (IsTotal-option (parse_object_filter filter) _ _ (λ _. refl)
          (λ obid. snapshot_object-IsTotal obid session_id))
        (λ (set, z, x, y). snapshot_tile-IsTotal set z x y session_id)
