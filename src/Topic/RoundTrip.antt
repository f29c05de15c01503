-- ===== src/Topic/RoundTrip.antt =====
-- The names that the server builds are read back by its own parsers.
use geomqtt.Base.{
  ℕ, ◌≤◌, List, [], ◌∷◌, none, some, ◌≡◌, refl, true, inl, inr, arith, Text, Bytes, lit, Lacks,
  splitn, splitn-append, splitn-one, show, show-Lacks, text_eq_refl, parse_uint, parse-show,
  parse_uint-le, splitn-second, u8_max, u32_max, strip_prefix, strip_prefix-append,
  split_once-append, from_utf8, is_utf8,
}
use geomqtt.Topic.Names.{
  tile_topic, object_topic, redis_tile_channel, redis_object_channel, user_channel, tile_parts,
  parse_tile_filter, parse_object_filter, topic_of_parts, redis_channel_to_mqtt_topic,
}
use geomqtt.Topic.Node.{build_envelope, split_envelope}

slash-show : (n : ℕ) → Lacks b'/' (show n)
slash-show n = show-Lacks b'/' n (inl (omega arith))

colon-show : (n : ℕ) → Lacks b':' (show n)
colon-show n = show-Lacks b':' n (inr (omega arith))

-- A subscription to the topic of a tile is recognised as that tile, if the set's name holds no
-- slash and the numbers fit the types.
pub parse_tile_filter-tile_topic :
    (set : Text) (z x y : ℕ)
    → Lacks b'/' set
    → z ≤ u8_max
    → x ≤ u32_max
    → y ≤ u32_max
    → parse_tile_filter (tile_topic set z x y) ≡ some (set, z, x, y)
unfolding parse_tile_filter tile_topic
parse_tile_filter-tile_topic set z x y hs hz hx hy = rw (
  splitn-append 3 (lit "geo") _ b'/' (omega arith),
  splitn-append 2 set _ b'/' hs,
  splitn-append 1 (show z) _ b'/' (slash-show z),
  splitn-append 0 (show x) _ b'/' (slash-show x),
  splitn-one (show y) b'/',
  tile_parts,
  text_eq_refl,
  parse-show u8_max z hz (omega arith),
  parse-show u32_max x hx (omega arith),
  parse-show u32_max y hy (omega arith),
)

tile_parts_sound :
    (parts : List Text) (set : Text) (z x y : ℕ)
    → tile_parts parts ≡ some (set, z, x, y)
    → (geo : Text) × (zs : Text) × (xs : Text) × (ys : Text) × (parts
        ≡ geo ∷ set ∷ zs ∷ xs ∷ ys ∷ [])
      × (parse_uint u8_max zs ≡ some z)
      × (parse_uint u32_max xs ≡ some x)
      × (parse_uint u32_max ys ≡ some y)
unfolding tile_parts
tile_parts_sound (geo ∷ s ∷ zs ∷ xs ∷ ys ∷ []) set z x y h =
    (geo, zs, xs, ys, ground arith, ground arith, ground arith, ground arith)
tile_parts_sound _ set z x y h = cc

-- What a filter is recognised as fits the types, and the set's name holds no slash.
parse_tile_filter_sound :
    (filter set : Text) (z x y : ℕ)
    → parse_tile_filter filter ≡ some (set, z, x, y)
    → Lacks b'/' set × (z ≤ u8_max) × (x ≤ u32_max) × (y ≤ u32_max)
unfolding parse_tile_filter
parse_tile_filter_sound filter set z x y h =
    let (geo, zs, xs, ys, e, ez, ex, ey) = tile_parts_sound (splitn 5 filter b'/') set z x y h in
    (
      splitn-second 2 filter geo set zs (xs ∷ ys ∷ []) b'/' e,
      parse_uint-le u8_max zs z ez,
      parse_uint-le u32_max xs x ex,
      parse_uint-le u32_max ys y ey,
    )

-- The subscription to the topic of an object is recognised as that object, whatever its id, and
-- is not taken for a tile.
parse_object_filter-object_topic :
    (obid : Text) → parse_object_filter (object_topic obid) ≡ some obid
unfolding parse_object_filter object_topic
parse_object_filter-object_topic obid = strip_prefix-append (lit "objects/") obid

-- The channel of a tile leads the other nodes back to the topic of the tile, if the set's name
-- holds no colon.
pub channel-tile :
    (set : Text) (z x y : ℕ)
    → Lacks b':' set
    → redis_channel_to_mqtt_topic (redis_tile_channel set z x y) ≡ some (tile_topic set z x y)
unfolding redis_channel_to_mqtt_topic redis_tile_channel tile_topic strip_prefix
channel-tile set z x y hs = rw (
  splitn-append 2 set _ b':' hs,
  splitn-append 1 (show z) _ b':' (colon-show z),
  splitn-append 0 (show x) _ b':' (colon-show x),
  splitn-one (show y) b':',
  topic_of_parts,
)

-- The channel of an object leads back to the topic of the object, whatever its id.
pub channel-object :
    (obid : Text)
    → redis_channel_to_mqtt_topic (redis_object_channel obid) ≡ some (object_topic obid)
unfolding redis_channel_to_mqtt_topic redis_object_channel object_topic strip_prefix
channel-object obid = refl

-- No topic is read from the channel of a client's own PUBLISH.
channel-user : (topic : Text) → redis_channel_to_mqtt_topic (user_channel topic) ≡ none
unfolding redis_channel_to_mqtt_topic user_channel strip_prefix
channel-user topic = refl

-- A node reads back the sender and the payload of an envelope, if the sender's id is text with no
-- bar; the payload may hold bars.
pub split_envelope-build_envelope :
    (node_id : Text) (payload : Bytes)
    → Lacks b'|' node_id
    → is_utf8 node_id ≡ true
    → split_envelope (build_envelope node_id payload) ≡ some (node_id, payload)
unfolding split_envelope build_envelope from_utf8
split_envelope-build_envelope node_id payload h u = rw (split_once-append node_id payload b'|' h, u)
