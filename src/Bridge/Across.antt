-- ===== src/Bridge/Across.antt =====
-- redis.rs: what the sessions of a node receive of the events of another node.
use geomqtt.Base.{ℕ, ◌++◌, some, true, false, ◌≡◌, refl, Text, Bytes, Lacks, text_eq}
use geomqtt.Base.Assoc.{lookup}
use geomqtt.Bridge.Defs.{message, relay, receive}
use geomqtt.Bridge.Deliver.{receive-tile}
use geomqtt.Broker.Defs
use geomqtt.Broker.Defs.{Session, Channels}
use geomqtt.Broker.Invariant.{IsValid}
use geomqtt.Fanout.Packets.{packet_for, Listens, publish_local-message_for, publish_local_runs}
use geomqtt.Fanout.Total.{CanEncode}
use geomqtt.Metrics.{inc}
use geomqtt.Payload.Defs.{TilePayload, tile_fields}
use geomqtt.Topic.{tile_topic, redis_tile_channel, build_envelope, make_node_id}
use geomqtt.Topic.NodeId.{make_node_id-Lacks, make_node_id-utf8}
use geomqtt.World.{Env, World, ◌>>=◌, ◌>>◌}

module _ (env : Env) (enc : CanEncode env) (id : ℕ) (s : Session) where
  open env use {float, mqtt, to_vec}
  open float use {F}

  -- The state once a message is delivered and counted.
  abbrev relayed : Channels → World env → World env
  relayed after w = record w {
    chans = after;
    metrics = record w.metrics { redis_bridge_messages = inc w.metrics.redis_bridge_messages };
  }

  relay_runs :
      (topic : Text) (body : Bytes) (w : World env) (after : Channels) (n : ℕ)
      → Defs.publish_local mqtt w.broker topic body w.chans ≡ some (after, n)
      → relay env (some topic) body w ≡ some (tt, relayed after w)
  unfolding relay
  relay_runs topic body w after n e =
      rw (publish_local_runs env enc id s topic body w after n e, ◌>>=◌, ◌>>◌) refl

  -- An event that another node publishes for a tile is sent to a registered and connected session of
  -- this node if one of its filters matches the tile, in the packet that an event of this node would
  -- be sent in, behind what waited on its channel, and it is counted. This holds in a well-formed
  -- broker, as long as packets can be encoded, if the nodes have different ids and the name of the
  -- set holds no colon.
  pub receive-packet_for :
      (pid nanos : ℕ) (set : Text) (z x y : ℕ) (payload : TilePayload F) (w : World env)
      → text_eq (make_node_id pid nanos) env.node_id ≡ false
      → Lacks b':' set
      → IsValid w.broker
      → lookup id w.broker.sessions ≡ some s
      → (w.chans s.outbound).is_open ≡ true
      → (w' : World env) × (receive env
            (message
              (redis_tile_channel set z x y)
              (some (build_envelope (make_node_id pid nanos) (to_vec (tile_fields payload)))))
            w
          ≡ some (tt, w'))
        × ((w'.chans s.outbound).queue
            ≡ (w.chans s.outbound).queue ++ packet_for env enc id s set (z, x, y) payload)
        × (w'.metrics.redis_bridge_messages ≡ inc w.metrics.redis_bridge_messages)
  receive-packet_for pid nanos set z x y payload w other plain valid registered connected =
      let listens : Listens env enc id s w = record {
        valid = valid;
        registered = registered;
        connected = connected;
      } in
      let body = to_vec (tile_fields payload) in
      let (after, n, ran, added, is_open) =
        publish_local-message_for env enc id s (tile_topic set z x y) body w listens in
      let taken =
        receive-tile env (make_node_id pid nanos) set z x y body plain
          (make_node_id-Lacks pid nanos) (make_node_id-utf8 pid nanos) in
      (
        relayed after w,
        rw (taken, other) (relay_runs (tile_topic set z x y) body w after n ran),
        added,
        refl,
      )
