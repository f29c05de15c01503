-- ===== src/Bridge/Defs.antt =====
-- redis.rs: `run_pubsub_bridge`, which hands what other nodes published to the local sessions. The
-- subscription to the two patterns of channels and the waits are left out.
use geomqtt.Base.{List, Option, none, some, Text, Bytes, text_eq, if◌then◌else◌}
use geomqtt.Topic.{split_envelope, redis_channel_to_mqtt_topic}
use geomqtt.Metrics.{inc}
use geomqtt.World.{Env, M, ◌>>◌, pure, for_each, count, publish_local}

-- What `rx.recv()` gives: a message with its channel and its bytes, if the value has any, or a
-- failure.
pub data Received : Type 0 where
  message : Text → Option Bytes → Received
  failed : Received

module _ (env : Env) where
  unfoldable pub relay : Option Text → Bytes → M env (Unit {0})
  relay none body = pure tt
  relay (some topic) body = do
    publish_local env topic body
    count env (λ m. record m { redis_bridge_messages = inc m.redis_bridge_messages })

  unfoldable pub take_apart : Text → Option (Text × Bytes) → M env (Unit {0})
  take_apart channel none = pure tt
  take_apart channel (some (src, body)) =
      if text_eq src env.node_id then pure tt else relay (redis_channel_to_mqtt_topic channel) body

  -- One round of the loop.
  unfoldable pub receive : Received → M env (Unit {0})
  receive (message channel none) = pure tt
  receive (message channel (some payload)) = take_apart channel (split_envelope payload)
  receive failed = pure tt

  -- The rounds for what is received.
  unfoldable pub run_pubsub_bridge : List Received → M env (Unit {0})
  run_pubsub_bridge events = for_each events receive
