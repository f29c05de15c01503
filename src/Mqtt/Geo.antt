-- ===== src/Mqtt/Geo.antt =====
-- mqtt.rs: the members of a set in a box. http.rs has `haversine_m` once more.
use geomqtt.Base.{List, [], ◌∷◌, Option, none, some, Text, from_utf8, from_utf8_lossy}
use geomqtt.Float.{F64}
use geomqtt.Mqtt.Reply.{FredValue, FredValues}
use geomqtt.World.{Env, M, ◌>>=◌, pure, upstream}

pub record GeoHit (F : Type 0) : Type 0 where
  pub member : Text
  pub lat : F
  pub lng : F

unfoldable pub value_to_string : {F : Type 0} → FredValue F → Option Text
value_to_string (FredValue.string s) = some s
value_to_string (FredValue.bytes b) = some (from_utf8_lossy b)
value_to_string _ = none

-- `unwrap_or_default` of a `String`
unfoldable pub or_no_text : Option Text → Text
or_no_text none = []
or_no_text (some s) = s

module _ (float : F64) where
  open float use {
    F, decimal, of_i64, square, add, sub, mul, div, to_radians, sin, cos, sqrt, asin, parse_f64,
  }

  unfoldable pub haversine_m : F → F → F → F → F
  haversine_m lat1 lon1 lat2 lon2 =
      let r = decimal 6371000 0 in
      let phi1 = to_radians lat1 in
      let phi2 = to_radians lat2 in
      let dphi = to_radians (sub lat2 lat1) in
      let dlambda = to_radians (sub lon2 lon1) in
      let a =
        add (square (sin (div dphi (decimal 2 0))))
          (mul (mul (cos phi1) (cos phi2)) (square (sin (div dlambda (decimal 2 0))))) in
      mul (mul (decimal 2 0) r) (asin (sqrt a))

  unfoldable pub value_to_f64 : FredValue F → Option F
  value_to_f64 (FredValue.double d) = some d
  value_to_f64 (FredValue.integer i) = some (of_i64 i)
  value_to_f64 (FredValue.string s) = parse_f64 s
  value_to_f64 (FredValue.bytes b) = elim (from_utf8 b) [ none ↦ none | some s ↦ parse_f64 s ]
  value_to_f64 _ = none

  -- `unwrap_or_default` of an `f64`
  unfoldable pub or_zero : Option F → F
  or_zero none = decimal 0 0
  or_zero (some v) = v

  -- The position of an item: an array of two.
  unfoldable pub hit_at : Text → FredValue F → Option (GeoHit F)
  unfolding value_to_f64 or_zero
  hit_at member (FredValue.array (FredValues.cons lon (FredValues.cons lat FredValues.nil))) =
      some (record {
        member = member;
        lat = or_zero (value_to_f64 lat);
        lng = or_zero (value_to_f64 lon);
      })
  hit_at member _ = none

  -- One item; none if it is skipped.
  unfoldable pub hit_of : FredValue F → Option (GeoHit F)
  unfolding hit_at value_to_string or_no_text
  hit_of (FredValue.array (FredValues.cons member (FredValues.cons pos rest))) =
      hit_at (or_no_text (value_to_string member)) pos
  hit_of _ = none

  unfoldable pub hits_of : FredValues F → List (GeoHit F)
  unfolding hit_of
  hits_of FredValues.nil = []
  hits_of (FredValues.cons item items) = elim (hit_of item) [
    | none ↦ hits_of items
    | some hit ↦ hit ∷ hits_of items
  ]

  unfoldable pub parse_geosearch : FredValue F → Option (List (GeoHit F))
  unfolding hits_of
  parse_geosearch (FredValue.array items) = some (hits_of items)
  parse_geosearch FredValue.null = some []
  parse_geosearch _ = none

  -- The middle of a box, and its width and height in metres.
  unfoldable pub box_of : F × F × F × F → F × F × F × F
  unfolding haversine_m
  box_of (w, s, e, n) =
      let cx = div (add w e) (decimal 2 0) in
      let cy = div (add s n) (decimal 2 0) in (cx, cy, haversine_m cy w cy e, haversine_m s cx n cx)

module _ (env : Env) where
  open env use {float, redis}
  open float use {F}

  unfoldable pub parsed : Option (FredValue F) → Option (List (GeoHit F))
  parsed none = none
  parsed (some raw) = parse_geosearch float raw

  -- The centre and the size of the box; in metres, the nearest members first.
  unfoldable pub geosearch_box : Text → F × F × F × F → M env (Option (List (GeoHit F)))
  geosearch_box set (lon, lat, width_m, height_m) = do
    raw ← upstream env (redis.geosearch set lon lat width_m height_m)
    pure (parsed raw)
