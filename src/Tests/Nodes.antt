-- ===== src/Tests/Nodes.antt =====
-- The bridge at a concrete message.
use geomqtt.Base.{some, ◌≡◌, refl, arith, lit, text_eq}
use geomqtt.Topic.{redis_tile_channel, build_envelope}
use geomqtt.Bridge.Defs.{message, receive}
use geomqtt.Bridge.Echo.{receive-once}
use geomqtt.Fanout.Defs.{publish_tile}
use geomqtt.Fanout.Total.{CanEncode}
use geomqtt.Bridge.Across.{receive-packet_for}
use geomqtt.Fanout.Packets.{packet_for, published}
use geomqtt.Payload.Defs.{TilePayload, tile_fields}
use geomqtt.Base.{[], ◌++◌}
use geomqtt.Base.Assoc.{lookup}
use geomqtt.Tests.Sessions.{session, can_encode, broker-IsValid}
use geomqtt.Topic.{make_node_id, hex, hex_digits, hex_digit}
use geomqtt.World.{Env, World, ◌>>◌}
use geomqtt.Tests.Toy.{env, world}

-- An event of another node.
receive-packet_for_example :
    (w' : World env) × (receive env
        (message (redis_tile_channel (lit "cars") 1 0 0) (
          some (
            build_envelope
              (make_node_id 77 4711)
              (env.to_vec (tile_fields (TilePayload.remove (lit "v1") 5))))))
        world
      ≡ some (tt, w'))
    × ((w'.chans 10).queue
        ≡ []
          ++ packet_for env can_encode 1 session
              (lit "cars")
              (1, 0, 0)
              (TilePayload.remove (lit "v1") 5))
    × (w'.metrics.redis_bridge_messages ≡ 1)
unfolding make_node_id hex hex_digits hex_digit text_eq lookup
receive-packet_for_example =
    receive-packet_for env can_encode 1 session 77 4711 (lit "cars") 1 0 0
      (TilePayload.remove (lit "v1") 5) world refl (ground arith) broker-IsValid refl refl

-- A node with an id of its own.
abbrev node : Env
node = record {
  float = env.float;
  mqtt = env.mqtt;
  redis = env.redis;
  to_vec = env.to_vec;
  node_id = make_node_id 77 4711;
}

abbrev here : World node
here = record {
  broker = world.broker;
  chans = world.chans;
  metrics = world.metrics;
  upstream = world.upstream;
  influx = world.influx;
  clock = world.clock;
}

node_encodes : CanEncode node
node_encodes topic body = (_, refl)

receive-once_example :
    (w' : World node) × ((do
      publish_tile node (lit "cars") 1 0 0 (TilePayload.remove (lit "v1") 5)
      receive node (
          message (redis_tile_channel (lit "cars") 1 0 0) (
            some (
              build_envelope
                (make_node_id 77 4711)
                (node.to_vec (tile_fields (TilePayload.remove (lit "v1") 5)))))))
        here
      ≡ some (tt, w'))
    × ((w'.chans 10).queue
        ≡ []
          ++ packet_for node node_encodes 1 session
              (lit "cars")
              (1, 0, 0)
              (TilePayload.remove (lit "v1") 5))
    × (w'.upstream
        ≡ published node node_encodes 1 session
            (lit "cars")
            (1, 0, 0)
            (TilePayload.remove (lit "v1") 5)
            here.upstream)
unfolding lookup
receive-once_example =
    receive-once node node_encodes 1 session 77 4711 (lit "cars") 1 0 0
      (TilePayload.remove (lit "v1") 5) here refl broker-IsValid refl refl
