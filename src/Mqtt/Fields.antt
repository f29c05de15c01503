-- ===== src/Mqtt/Fields.antt =====
-- mqtt.rs: what the map holds that `hgetall` makes of the fields of a hash.
use geomqtt.Base.{
  List, [], ◌∷◌, ◌++◌, Option, none, some, ◌≡◌, refl, ap, ◌∙◌, Text, text_eq, if◌then◌else◌,
}
use geomqtt.Mqtt.Attributes.{Settings, collect_attrs, collected, or_empty, hgetall}
use geomqtt.Payload.Attrs.{Value, Attrs, or_else, or_else-none, or_else-if}
use geomqtt.Payload.Attrs
use geomqtt.World.{Env, World}

-- The value of a field: the last one, if a field is answered twice.
unfoldable pub last_field : Text → List (Text × Text) → Option Value
last_field j [] = none
last_field j ((k, v) ∷ fields) =
    let later = last_field j fields in
    or_else later (if text_eq j k then some (Value.string v) else none)

-- The value of a field in the answer of Redis; there is none if the answer is an error.
unfoldable pub answered_field : Text → Option (List (Text × Text)) → Option Value
answered_field j none = none
answered_field j (some fields) = last_field j fields

lookup-collect_attrs :
    (j : Text) (fields : List (Text × Text)) (out : Attrs)
    → Attrs.lookup j (collect_attrs fields out) ≡ or_else (last_field j fields) (Attrs.lookup j out)
unfolding collect_attrs last_field or_else
lookup-collect_attrs j [] out = refl
lookup-collect_attrs j ((k, v) ∷ fields) out =
    lookup-collect_attrs j fields (Attrs.insert k (Value.string v) out)
    ∙ ap (or_else (last_field j fields)) (Attrs.lookup-insert j k (Value.string v) out)
    ∙ or_else-if (last_field j fields) (Attrs.lookup j out) (text_eq j k) (Value.string v)

pub lookup-collected :
    (j : Text) (answer : Option (List (Text × Text)))
    → Attrs.lookup j (or_empty (collected answer)) ≡ answered_field j answer
unfolding Attrs.lookup or_empty collected answered_field
lookup-collected j none = refl
lookup-collected j (some fields) =
    lookup-collect_attrs j fields [] ∙ or_else-none (last_field j fields)

module _ (env : Env) (cfg : Settings) where
  open env use {redis}

  pub hgetall_runs :
      (obid : Text) (w : World env)
      → hgetall env cfg obid w
        ≡ some (
          collected (redis.hgetall (cfg.object_key_prefix ++ obid) w.upstream).1,
          record w { upstream = (redis.hgetall (cfg.object_key_prefix ++ obid) w.upstream).0 },
        )
  unfolding hgetall
  hgetall_runs obid w = refl
