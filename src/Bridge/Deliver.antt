-- ===== src/Bridge/Deliver.antt =====
-- redis.rs and fanout.rs: what a node publishes for the others, and what they make of it.
use geomqtt.Base.{
  ℕ, List, Option, none, some, true, ◌≡◌, refl, Text, Bytes, Lacks, is_utf8, text_eq, if◌then◌else◌,
}
use geomqtt.Topic.{
  tile_topic, object_topic, redis_tile_channel, redis_object_channel, build_envelope,
}
use geomqtt.Topic.RoundTrip.{channel-tile, channel-object, split_envelope-build_envelope}
use geomqtt.Bridge.Defs.{Received, message, failed, relay, take_apart, receive, run_pubsub_bridge}
use geomqtt.Fanout.Total.{CanEncode, publish_local-IsTotal}
use geomqtt.World.{Env, World, pure}
use geomqtt.World.Total.{IsTotal, Gives-elim, IsTotal-if, IsTotal-for_each, Gives-value}

module _ (env : Env) where
  -- A tile's message is dropped if the node's own id is in it, and is relayed under the topic of the
  -- tile otherwise, if the set's name holds no colon and the sender's id is text with no bar.
  pub receive-tile :
      (src set : Text) (z x y : ℕ) (body : Bytes)
      → Lacks b':' set
      → Lacks b'|' src
      → is_utf8 src ≡ true
      → receive env (message (redis_tile_channel set z x y) (some (build_envelope src body))) ≡ (
          if text_eq src env.node_id then pure tt else relay env (some (tile_topic set z x y)) body)
  unfolding receive take_apart
  receive-tile src set z x y body hs hb hu =
      rw (split_envelope-build_envelope src body hb hu, take_apart, channel-tile set z x y hs) refl

  -- An object's message is dropped if the node's own id is in it, and is relayed under the topic of
  -- the object otherwise, if the sender's id is text with no bar.
  receive-object :
      (src obid : Text) (body : Bytes)
      → Lacks b'|' src
      → is_utf8 src ≡ true
      → receive env (message (redis_object_channel obid) (some (build_envelope src body)))
        ≡ (if text_eq src env.node_id then pure tt else relay env (some (object_topic obid)) body)
  unfolding receive take_apart
  receive-object src obid body hb hu =
      rw (split_envelope-build_envelope src body hb hu, take_apart, channel-object obid) refl

  module _ (enc : CanEncode env) where
    relay-IsTotal : (topic : Option Text) (body : Bytes) → IsTotal (relay env topic body)
    unfolding relay
    relay-IsTotal none body w = refl
    relay-IsTotal (some topic) body w =
        Gives-elim _ _ _ (publish_local-IsTotal env enc topic body w) (λ _ _. refl)

    take_apart-IsTotal :
        (channel : Text) (o : Option (Text × Bytes)) → IsTotal (take_apart env channel o)
    unfolding take_apart
    take_apart-IsTotal channel none w = refl
    take_apart-IsTotal channel (some (src, body)) w =
        IsTotal-if (text_eq src env.node_id) _ _ (λ _. refl) (relay-IsTotal _ body) w

    pub receive-IsTotal : (r : Received) → IsTotal (receive env r)
    unfolding receive
    receive-IsTotal (message channel none) w = refl
    receive-IsTotal (message channel (some payload)) w = take_apart-IsTotal channel _ w
    receive-IsTotal failed w = refl

    -- The bridge gets through every sequence of messages and failures, whatever bytes they hold, as
    -- long as each PUBLISH packet can be encoded.
    pub run_pubsub_bridge-continues :
        (events : List Received) (w : World env)
        → (out : Unit {0} × World env) × (run_pubsub_bridge env events w ≡ some out)
    unfolding run_pubsub_bridge
    run_pubsub_bridge-continues events w =
        Gives-value w.broker _ (IsTotal-for_each events _ receive-IsTotal w)
