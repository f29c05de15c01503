-- ===== src/Tests/Topics.antt =====
-- Topics, channels and envelopes at concrete names.
use geomqtt.Base.{some, ◌≡◌, ◌≢◌, arith, lit}
use geomqtt.Topic.{tile_topic, redis_tile_channel, parse_tile_filter, redis_channel_to_mqtt_topic}
use geomqtt.Topic.RoundTrip.{parse_tile_filter-tile_topic, channel-tile}
use geomqtt.Topic.Foreign.{channel-tile_colon}

parse_tile_filter-tile_topic_example :
    parse_tile_filter (tile_topic (lit "cars") 9 256 170) ≡ some (lit "cars", 9, 256, 170)
parse_tile_filter-tile_topic_example =
    parse_tile_filter-tile_topic (lit "cars") 9 256 170 (ground arith) (omega arith) (omega arith)
      (omega arith)

channel-tile_example :
    redis_channel_to_mqtt_topic (redis_tile_channel (lit "cars") 9 256 170)
    ≡ some (tile_topic (lit "cars") 9 256 170)
channel-tile_example = channel-tile (lit "cars") 9 256 170 (ground arith)

channel-tile_colon_example :
    redis_channel_to_mqtt_topic (redis_tile_channel (lit "fleet:cars") 9 256 170)
    ≢ some (tile_topic (lit "fleet:cars") 9 256 170)
channel-tile_colon_example = channel-tile_colon (lit "fleet") (lit "cars") 9 256 170 (ground arith)
