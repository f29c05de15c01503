-- ===== src/Topic/Names.antt =====
-- payload.rs, mqtt.rs, redis.rs and fanout.rs: how topics, filters, channels and keys are spelt.
use geomqtt.Base.{
  ℕ, List, [], ◌∷◌, ◌++◌, Option, none, some, Text, lit, text_eq, if◌then◌else◌, ◌>>=◌,
  strip_prefix, splitn, show, parse_uint, u8_max, u32_max,
}

-- `format!("geo/{set}/{z}/{x}/{y}")`
unfoldable pub tile_topic : Text → ℕ → ℕ → ℕ → Text
tile_topic set z x y = lit "geo/" ++ (set ++ b'/' ∷ (show z ++ b'/' ∷ (show x ++ b'/' ∷ show y)))

unfoldable pub object_topic : Text → Text
object_topic obid = lit "objects/" ++ obid

unfoldable pub redis_tile_channel : Text → ℕ → ℕ → ℕ → Text
redis_tile_channel set z x y =
    lit "gmq:tile:" ++ (set ++ b':' ∷ (show z ++ b':' ∷ (show x ++ b':' ∷ show y)))

unfoldable pub redis_object_channel : Text → Text
redis_object_channel obid = lit "gmq:obj:" ++ obid

-- The channel of a client's own PUBLISH.
unfoldable pub user_channel : Text → Text
user_channel topic = lit "gmq:user:" ++ topic

unfoldable pub inset_key : Text → Text
inset_key obid = lit "gmq:inset:" ++ obid

unfoldable pub tile_parts : List Text → Option (Text × ℕ × ℕ × ℕ)
tile_parts (geo ∷ set ∷ z ∷ x ∷ y ∷ []) =
    if text_eq geo (lit "geo")
    then (do
      z' ← parse_uint u8_max z
      x' ← parse_uint u32_max x
      y' ← parse_uint u32_max y
      some (set, z', x', y'))
    else none
tile_parts _ = none

unfoldable pub parse_tile_filter : Text → Option (Text × ℕ × ℕ × ℕ)
unfolding tile_parts
parse_tile_filter filter = tile_parts (splitn 5 filter b'/')

unfoldable pub parse_object_filter : Text → Option Text
parse_object_filter filter = strip_prefix filter (lit "objects/")

unfoldable pub topic_of_parts : List Text → Option Text
topic_of_parts (set ∷ z ∷ x ∷ y ∷ []) =
    some (lit "geo/" ++ (set ++ b'/' ∷ (z ++ b'/' ∷ (x ++ b'/' ∷ y))))
topic_of_parts _ = none

unfoldable pub redis_channel_to_mqtt_topic : Text → Option Text
unfolding topic_of_parts
redis_channel_to_mqtt_topic channel = elim (strip_prefix channel (lit "gmq:tile:")) [
  | some rest ↦ topic_of_parts (splitn 4 rest b':')
  | none ↦ elim (strip_prefix channel (lit "gmq:obj:")) [
    | some rest ↦ some (lit "objects/" ++ rest)
    | none ↦ none
  ]
]
