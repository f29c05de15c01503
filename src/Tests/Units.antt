-- ===== src/Tests/Units.antt =====
-- The unit tests of redis.rs, payload.rs, config.rs and influx.rs, as far as they do not compute with
-- floats.
use geomqtt.Base.{
  ℕ, List, [], ◌∷◌, Option, none, some, Bool, true, false, ◌&&◌, ◌==◌, if◌then◌else◌, ◌≡◌, refl,
  Text, lit, text_eq, is_utf8, split_once, splitn, show, digits, trim, split, parse_uint,
  strip_prefix, from_utf8,
}
use geomqtt.Base.Results.{Result, ok, err}
use geomqtt.Config.{ConfigError}
use geomqtt.Config.TileSize.{
  count_ones, is_power_of_two, trailing_zeros, check_tile_size, parse_tile_size,
  zoom_offset_for_tile_size,
}
use geomqtt.Config.Zooms.{
  is_filled, or_err, read_token, read_tokens, tokens, up_from, insert_sorted, sort_unstable, dedup,
  dedup_after, parse_zoom_list,
}
use geomqtt.Influx.Line.{
  escape_tag, is_tag_special, push_string_field, escape_string, is_string_special, urlencode,
  is_unreserved,
}
use geomqtt.Payload.Attrs.{Value, is_empty}
use geomqtt.Payload.Attrs
use geomqtt.Payload.Defs.{TilePayload, ObjectPayload, Json, tile_fields, object_fields, attrs_field}
use geomqtt.Topic.{
  tile_topic, object_topic, redis_tile_channel, redis_object_channel, build_envelope,
  split_envelope, redis_channel_to_mqtt_topic, topic_of_parts,
}

-- `assert_eq!` on options, results and lists.
abbrev is_text : Option Text → Text → Bool
is_text none t = false
is_text (some s) t = text_eq s t

abbrev is_none : {A : Type 0} → Option A → Bool
is_none none = true
is_none (some a) = false

abbrev same : List ℕ → List ℕ → Bool
same [] [] = true
same [] (n ∷ ns) = false
same (m ∷ ms) [] = false
same (m ∷ ms) (n ∷ ns) = m == n && same ms ns

abbrev is_ok : Result ConfigError (List ℕ) → List ℕ → Bool
is_ok (ok ms) ns = same ms ns
is_ok (err e) ns = false

abbrev is_err : {A : Type 0} → Result ConfigError A → Bool
is_err (ok a) = false
is_err (err e) = true

abbrev is_split : Option (Text × Text) → Text → Text → Bool
is_split none src body = false
is_split (some (s, b)) src body = text_eq s src && text_eq b body

abbrev envelope_roundtrip : Bool
envelope_roundtrip =
    is_split (split_envelope (build_envelope (lit "node-a") (lit "{\"op\":\"add\"}")))
      (lit "node-a") (lit "{\"op\":\"add\"}")

abbrev envelope_missing_separator : Bool
envelope_missing_separator = is_none (split_envelope (lit "no-pipe-here"))

abbrev envelope_handles_payload_with_pipes : Bool
envelope_handles_payload_with_pipes =
    is_split (split_envelope (build_envelope (lit "n") (lit "{\"k\":\"a|b|c\"}"))) (lit "n")
      (lit "{\"k\":\"a|b|c\"}")

abbrev channel_to_topic_tile : Bool
channel_to_topic_tile =
    is_text (redis_channel_to_mqtt_topic (lit "gmq:tile:vehicles:10:544:370"))
      (lit "geo/vehicles/10/544/370")

abbrev channel_to_topic_object : Bool
channel_to_topic_object =
    is_text (redis_channel_to_mqtt_topic (lit "gmq:obj:veh-42")) (lit "objects/veh-42")

abbrev channel_to_topic_unknown_returns_none : Bool
channel_to_topic_unknown_returns_none = is_none (redis_channel_to_mqtt_topic (lit "some:other"))

redis_tests_pass :
    (envelope_roundtrip && envelope_missing_separator && envelope_handles_payload_with_pipes
      && channel_to_topic_tile && channel_to_topic_object && channel_to_topic_unknown_returns_none)
    ≡ true
unfolding split_envelope build_envelope redis_channel_to_mqtt_topic topic_of_parts split_once splitn
    strip_prefix from_utf8 is_utf8 text_eq
redis_tests_pass = refl

abbrev topic_helpers : Bool
topic_helpers =
    text_eq (tile_topic (lit "vehicles") 10 544 370) (lit "geo/vehicles/10/544/370")
    && text_eq (object_topic (lit "veh-42")) (lit "objects/veh-42")
    && text_eq (redis_tile_channel (lit "vehicles") 10 544 370) (lit "gmq:tile:vehicles:10:544:370")
    && text_eq (redis_object_channel (lit "veh-42")) (lit "gmq:obj:veh-42")

topic_helpers_pass : topic_helpers ≡ true
unfolding tile_topic object_topic redis_tile_channel redis_object_channel text_eq show digits
topic_helpers_pass = refl

abbrev ranges : Bool
ranges =
    is_ok (parse_zoom_list (lit "6-12")) (6 ∷ 7 ∷ 8 ∷ 9 ∷ 10 ∷ 11 ∷ 12 ∷ [])
    && is_ok (parse_zoom_list (lit "4,6-8,10")) (4 ∷ 6 ∷ 7 ∷ 8 ∷ 10 ∷ [])
    && is_ok (parse_zoom_list (lit "")) []
    && is_ok (parse_zoom_list (lit "8,8,8")) (8 ∷ [])
    && is_err (parse_zoom_list (lit "12-6"))

ranges_pass : ranges ≡ true
unfolding parse_zoom_list read_tokens tokens split trim read_token split_once parse_uint dedup
    dedup_after sort_unstable insert_sorted up_from or_err is_filled
ranges_pass = refl

abbrev is_size : Result ConfigError ℕ → ℕ → Bool
is_size (ok m) n = m == n
is_size (err e) n = false

abbrev tile_sizes : Bool
tile_sizes =
    zoom_offset_for_tile_size 256 == 0
    && zoom_offset_for_tile_size 128 == 1
    && zoom_offset_for_tile_size 64 == 2
    && zoom_offset_for_tile_size 1 == 8
    && is_err (parse_tile_size (lit "384"))
    && is_err (parse_tile_size (lit "200"))
    && is_err (parse_tile_size (lit "0"))
    && is_size (parse_tile_size (lit "128")) 128

tile_sizes_pass : tile_sizes ≡ true
unfolding parse_tile_size parse_uint trim check_tile_size is_power_of_two count_ones trailing_zeros
    zoom_offset_for_tile_size
tile_sizes_pass = refl

abbrev tag_escape : Bool
tag_escape = text_eq (escape_tag (lit "a b,c=d")) (lit "a\\ b\\,c\\=d")

abbrev field_string_escape : Bool
field_string_escape =
    text_eq (push_string_field (lit "he said \"hi\" \\o/")) (lit "\"he said \\\"hi\\\" \\\\o/\"")

abbrev urlencodes_special : Bool
urlencodes_special =
    text_eq (urlencode (lit "my org")) (lit "my%20org")
    && text_eq (urlencode (lit "ascii.-_~")) (lit "ascii.-_~")

influx_tests_pass : (tag_escape && field_string_escape && urlencodes_special) ≡ true
unfolding escape_tag is_tag_special push_string_field escape_string is_string_special urlencode
    is_unreserved text_eq
influx_tests_pass = refl

-- `v["..."]` of a document that is parsed.
abbrev get : Text → List (Text × Json ℕ) → Option (Json ℕ)
get key [] = none
get key ((k, v) ∷ fields) = if text_eq k key then some v else get key fields

abbrev is_string : Option (Json ℕ) → Text → Bool
is_string (some (Json.text s)) t = text_eq s t
is_string _ t = false

abbrev is_float : Option (Json ℕ) → ℕ → Bool
is_float (some (Json.float x)) y = x == y
is_float _ y = false

abbrev has_attr : Option (Json ℕ) → Text → Text → Bool
has_attr (some (Json.object ((k, Value.string v) ∷ []))) key value =
    text_eq k key && text_eq v value
has_attr _ key value = false

-- The fields of a tile payload, at the time 0.
abbrev tile_payload_shapes : Bool
tile_payload_shapes =
    let snapshot = tile_fields (TilePayload.snapshot (lit "x") 1 2 [] 0) in
    let move = tile_fields (TilePayload.move (lit "x") 1 2 0) in
    let remove = tile_fields (TilePayload.remove (lit "x") 0) in
    is_string (get (lit "op") snapshot) (lit "snapshot")
    && is_string (get (lit "id") snapshot) (lit "x")
    && is_float (get (lit "lat") snapshot) 1
    && is_float (get (lit "lng") snapshot) 2
    && is_none (get (lit "attrs") snapshot)
    && is_string (get (lit "op") move) (lit "move")
    && is_none (get (lit "attrs") move)
    && is_string (get (lit "op") remove) (lit "remove")
    && is_string (get (lit "id") remove) (lit "x")
    && is_none (get (lit "lat") remove)

abbrev tile_payload_includes_attrs_when_present : Bool
tile_payload_includes_attrs_when_present =
    let attrs = Attrs.insert (lit "icon") (Value.string (lit "truck")) [] in
    has_attr (get (lit "attrs") (tile_fields (TilePayload.add (lit "x") 1 2 attrs 0))) (lit "icon")
      (lit "truck")

abbrev object_payload_shapes : Bool
object_payload_shapes =
    let deletion = object_fields (ObjectPayload.delete (lit "x") 0) in
    is_string (get (lit "op") deletion) (lit "delete")
    && is_string (get (lit "id") deletion) (lit "x")

payload_tests_pass :
    (tile_payload_shapes && tile_payload_includes_attrs_when_present && object_payload_shapes)
    ≡ true
unfolding tile_fields object_fields attrs_field is_empty Attrs.insert text_eq
payload_tests_pass = refl
