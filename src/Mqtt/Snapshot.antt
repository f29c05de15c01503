-- ===== src/Mqtt/Snapshot.antt =====
-- mqtt.rs: what is sent after a subscription, so that the client has the current state.
use geomqtt.Base.{ℕ, List, [], ◌∷◌, Option, none, some, Bool, true, false, Text, Bytes}
use geomqtt.Coord.Tile.{bbox_for_tile}
use geomqtt.Broker.Defs.{encode_publish}
use geomqtt.Payload.Attrs.{Attrs}
use geomqtt.Payload.Defs.{TilePayload, ObjectPayload, tile_fields, object_fields}
use geomqtt.Topic.{tile_topic, object_topic, parse_tile_filter, parse_object_filter}
use geomqtt.Mqtt.Attributes.{Settings, hmget_enrich, hgetall, or_empty}
use geomqtt.Mqtt.Geo.{GeoHit, box_of, geosearch_box}
use geomqtt.World.{Env, M, ◌>>=◌, ◌>>◌, pure, for_each, now_ms, send_direct}

module _ (env : Env) (cfg : Settings) where
  open env use {float, mqtt, to_vec}
  open float use {F}

  -- `encode_publish`: `none` is a panic.
  unfoldable pub encoded : Text → Bytes → M env Bytes
  encoded topic body w = elim (encode_publish mqtt topic body) [
    | none ↦ none
    | some bytes ↦ some (bytes, w)
  ]

  -- One round of the loop over the members.
  unfoldable pub snapshot_hit : Text → ℕ → GeoHit F → M env (Unit {0})
  snapshot_hit topic session_id hit = do
    attrs ← hmget_enrich env cfg hit.member
    ts ← now_ms env
    bytes ←
        encoded topic (
          to_vec
            (tile_fields (TilePayload.snapshot hit.member hit.lat hit.lng (or_empty attrs) ts)))
    send_direct env session_id bytes

  -- The members that were found, if the search did not fail.
  unfoldable pub snapshot_hits : Text → ℕ → Option (List (GeoHit F)) → M env Bool
  snapshot_hits topic session_id none = pure false
  snapshot_hits topic session_id (some hits) = do
    for_each hits (snapshot_hit topic session_id)
    pure true

  -- Whether it is `Ok`.
  unfoldable pub snapshot_tile : Text → ℕ → ℕ → ℕ → ℕ → M env Bool
  snapshot_tile set z x y session_id = do
    members ← geosearch_box env set (box_of float (bbox_for_tile float z x y))
    snapshot_hits (tile_topic set z x y) session_id members

  -- The attributes of the object; nothing is sent if there are none.
  unfoldable pub snapshot_attrs : Text → ℕ → Attrs → M env Bool
  snapshot_attrs obid session_id [] = pure true
  snapshot_attrs obid session_id (a ∷ attrs) = do
    ts ← now_ms env
    bytes ←
        encoded (object_topic obid)
          (to_vec (object_fields (ObjectPayload.snapshot obid (a ∷ attrs) ts)))
    send_direct env session_id bytes
    pure true

  unfoldable pub snapshot_object : Text → ℕ → M env Bool
  snapshot_object obid session_id = do
    attrs ← hgetall env cfg obid
    snapshot_attrs obid session_id (or_empty attrs)

  unfoldable pub snapshot_for_filter : Text → ℕ → M env Bool
  snapshot_for_filter filter session_id = elim (parse_tile_filter filter) [
    | some (set, z, x, y) ↦ snapshot_tile set z x y session_id
    | none ↦ elim (parse_object_filter filter) [
      | some obid ↦ snapshot_object obid session_id
      | none ↦ pure true
    ]
  ]
