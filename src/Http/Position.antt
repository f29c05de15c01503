-- ===== src/Http/Position.antt =====
-- http.rs: the position of an object.
use geomqtt.Base.{Option, none, some, ◌>>=◌, Text, split_once}
use geomqtt.Float.{F64}
use geomqtt.Http.Document.{Document, feature, feature_without_position}
use geomqtt.Payload.Attrs.{Attrs}

module _ (float : F64) where
  open float use {F, parse_f64}

  -- A longitude and a latitude.
  unfoldable pub parse_lonlat : Text → Option (F × F)
  parse_lonlat s = do
    (a, b) ← split_once s b','
    lon ← parse_f64 a
    lat ← parse_f64 b
    some (lon, lat)

  -- `.ok().flatten()`, and `and_then(parse_lonlat)`
  unfoldable pub position_of : Option (Option Text) → Option (F × F)
  position_of pos = pos >>= (λ p. p >>= parse_lonlat)

  unfoldable pub object_feature : Text → Attrs → Option (F × F) → Document F
  object_feature obid attrs none = feature_without_position obid attrs
  object_feature obid attrs (some (lon, lat)) = feature obid lat lon attrs
