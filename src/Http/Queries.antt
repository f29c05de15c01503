-- ===== src/Http/Queries.antt =====
-- http.rs: what is asked of Redis, and the documents that are made of the answers.
use geomqtt.Base.{List, [], ◌∷◌, ◌++◌, Option, none, some, Text, lit}
use geomqtt.Http.Document.{Document, feature, feature_collection}
use geomqtt.Http.Position.{position_of, object_feature}
use geomqtt.Mqtt.Attributes.{Settings, hgetall, or_empty}
use geomqtt.Mqtt.Geo.{GeoHit, box_of, geosearch_box}
use geomqtt.Payload.Attrs.{Attrs}
use geomqtt.World.{Env, M, ◌>>=◌, pure, upstream}

module _ (env : Env) (cfg : Settings) where
  open env use {float, redis}
  open float use {F}

  -- The features of the members, one after the other; a member whose attributes cannot be read has
  -- none.
  unfoldable pub features_of : List (GeoHit F) → M env (List (Document F))
  features_of [] = pure []
  features_of (hit ∷ hits) = do
    attrs ← hgetall env cfg hit.member
    features ← features_of hits
    pure (feature hit.member hit.lat hit.lng (or_empty attrs) ∷ features)

  unfoldable pub collection_of : Option (List (GeoHit F)) → M env (Option (Document F))
  collection_of none = pure none
  collection_of (some hits) = do
    features ← features_of hits
    pure (some (feature_collection features))

  -- None if the search fails.
  unfoldable pub feature_collection_for_bbox : Text → F × F × F × F → M env (Option (Document F))
  feature_collection_for_bbox set bbox = do
    hits ← geosearch_box env set (box_of float bbox)
    collection_of hits

  -- What is read is an error, nothing or the attributes of the object.
  unfoldable pub feature_of_attrs : Text → Option Attrs → M env (Option (Option (Document F)))
  feature_of_attrs obid none = pure none
  feature_of_attrs obid (some []) = pure (some none)
  feature_of_attrs obid (some (a ∷ attrs)) = do
    pos ← upstream env (redis.get (cfg.object_key_prefix ++ obid ++ lit ":pos"))
    pure (some (some (object_feature float obid (a ∷ attrs) (position_of float pos))))

  unfoldable pub feature_for_object : Text → M env (Option (Option (Document F)))
  feature_for_object obid = do attrs ← hgetall env cfg obid; feature_of_attrs obid attrs
