-- ===== src/Mqtt/Quiet.antt =====
-- mqtt.rs: the reads of Redis touch nothing but the upstream.
use geomqtt.Base.{List, [], ◌∷◌, refl, Text}
use geomqtt.Mqtt.Attributes.{Settings, hmget_fields, hmget_enrich, hgetall}
use geomqtt.Mqtt.Geo.{geosearch_box}
use geomqtt.World.Quiet.{IsQuiet}
use geomqtt.World.{Env}

module _ (env : Env) (cfg : Settings) where
  open env use {float}
  open float use {F}

  hmget_fields-IsQuiet :
      (obid : Text) (fields : List Text) → IsQuiet env (hmget_fields env cfg obid fields)
  unfolding hmget_fields
  hmget_fields-IsQuiet obid [] w = (_, refl)
  hmget_fields-IsQuiet obid (f ∷ fields) w = (_, refl)

  pub hmget_enrich-IsQuiet : (obid : Text) → IsQuiet env (hmget_enrich env cfg obid)
  unfolding hmget_enrich
  hmget_enrich-IsQuiet obid = hmget_fields-IsQuiet obid cfg.enrich_attrs

  pub hgetall-IsQuiet : (obid : Text) → IsQuiet env (hgetall env cfg obid)
  unfolding hgetall
  hgetall-IsQuiet obid w = (_, refl)

module _ (env : Env) where
  open env use {float}
  open float use {F}

  pub geosearch_box-IsQuiet :
      (set : Text) (box : F × F × F × F) → IsQuiet env (geosearch_box env set box)
  unfolding geosearch_box
  geosearch_box-IsQuiet set (lon, lat, width_m, height_m) w = (_, refl)
