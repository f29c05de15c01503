-- ===== src/Mqtt/Attributes.antt =====
-- mqtt.rs: the attributes of an object, which are a hash in Redis.
use geomqtt.Base.{List, [], ◌∷◌, ◌++◌, Option, none, some, ℕ, Text}
use geomqtt.Payload.Attrs.{Value, Attrs}
use geomqtt.Payload.Attrs
use geomqtt.World.{Env, M, ◌>>=◌, pure, upstream}

-- The fields of `Config` that the handlers read.
pub record Settings : Type 0 where
  pub enrich_attrs : List Text
  pub enrich_zooms : List ℕ
  pub object_key_prefix : Text

-- The values that are there, put in a map under their fields.
unfoldable pub zip_attrs : List Text → List (Option Text) → Attrs → Attrs
zip_attrs (k ∷ fields) (some s ∷ vals) out =
    zip_attrs fields vals (Attrs.insert k (Value.string s) out)
zip_attrs (k ∷ fields) (none ∷ vals) out = zip_attrs fields vals out
zip_attrs _ _ out = out

unfoldable pub zipped : List Text → Option (List (Option Text)) → Option Attrs
zipped fields none = none
zipped fields (some vals) = some (zip_attrs fields vals [])

-- The fields of a hash, put in a map.
unfoldable pub collect_attrs : List (Text × Text) → Attrs → Attrs
collect_attrs [] out = out
collect_attrs ((k, v) ∷ fields) out = collect_attrs fields (Attrs.insert k (Value.string v) out)

-- `Option::map`, and `unwrap_or_default` of a map
unfoldable pub collected : Option (List (Text × Text)) → Option Attrs
collected none = none
collected (some fields) = some (collect_attrs fields [])

unfoldable pub or_empty : Option Attrs → Attrs
or_empty none = []
or_empty (some attrs) = attrs

module _ (env : Env) (cfg : Settings) where
  open env use {redis}

  -- the fetch, which is left out if no field is wanted
  unfoldable pub hmget_fields : Text → List Text → M env (Option Attrs)
  hmget_fields obid [] = pure (some [])
  hmget_fields obid (f ∷ fields) = do
    vals ← upstream env (redis.hmget (cfg.object_key_prefix ++ obid) (f ∷ fields))
    pure (zipped (f ∷ fields) vals)

  unfoldable pub hmget_enrich : Text → M env (Option Attrs)
  hmget_enrich obid = hmget_fields obid cfg.enrich_attrs

  unfoldable pub hgetall : Text → M env (Option Attrs)
  hgetall obid = do
    answer ← upstream env (redis.hgetall (cfg.object_key_prefix ++ obid))
    pure (collected answer)
