-- ===== src/Mqtt/Packet.antt =====
-- mqtt.rs: `handle_packet`. A snapshot is a task of its own, which runs later; its filter is noted.
use geomqtt.Base.{ℕ, List, [], ◌∷◌, Option, none, some, Bool, true, false, Text, Bytes, map}
use geomqtt.Broker.Defs
use geomqtt.Broker.Defs.{ReasonCode, success_at_most_once}
use geomqtt.Topic.{user_channel, build_envelope}
use geomqtt.Metrics.{inc}
use geomqtt.World.{Env, M, ◌>>◌, pure, for_each, count, upstream, publish_local}

-- The packets of the library, as far as they are looked at.
pub data Packet : Type 0 where
  connect ping_req disconnect other : Packet
  subscribe unsubscribe : ℕ → List Text → Packet
  publish : Text → Bytes → Packet

-- `Ok`, with the flag `connect_seen` and the filters whose snapshots are spawned, or `Err`, which
-- ends the session.
pub data Handled : Type 0 where
  goes_on : Bool → List Text → Handled
  ends : Handled

module _ (env : Env) where
  open env use {mqtt, redis, node_id}

  -- `outbound.send(bytes)`, whose result is dropped
  unfoldable pub send_outbound : ℕ → Bytes → M env (Unit {0})
  send_outbound outbound bytes w =
      some (tt, record w { chans = (Defs.send outbound bytes w.chans).0 })

  -- `.write(&mut buf).map_err(..)?` and the send that follows it
  unfoldable pub reply : ℕ → Option Bytes → Bool → List Text → M env Handled
  reply outbound none seen spawned = pure ends
  reply outbound (some bytes) seen spawned = do
    send_outbound outbound bytes
    pure (goes_on seen spawned)

  unfoldable pub add_subscription : ℕ → Text → M env (Unit {0})
  add_subscription session_id path w =
      some (tt, record w { broker = Defs.subscribe w.broker session_id path })

  unfoldable pub drop_subscription : ℕ → Text → M env (Unit {0})
  drop_subscription session_id path w =
      some (tt, record w { broker = Defs.unsubscribe w.broker session_id path })

  unfoldable pub subscribe_all : ℕ → ℕ → ℕ → List Text → M env Handled
  subscribe_all session_id outbound pkid filters = do
    for_each filters (add_subscription session_id)
    reply outbound (mqtt.write_suback pkid (map (λ f. success_at_most_once) filters)) true filters

  unfoldable pub publish_user : Text → Bytes → M env (Unit {0})
  publish_user topic payload = do
    publish_local env topic payload
    count env (λ m. record m { mqtt_publish_local = inc m.mqtt_publish_local })
    upstream env (redis.publish (user_channel topic) (build_envelope node_id payload))
    pure tt

  unfoldable pub dispatch : ℕ → ℕ → Bool → Packet → M env Handled
  dispatch session_id outbound seen connect = reply outbound mqtt.write_connack true []
  dispatch session_id outbound false (subscribe pkid filters) = pure ends
  dispatch session_id outbound true (subscribe pkid filters) =
      subscribe_all session_id outbound pkid filters
  dispatch session_id outbound seen (unsubscribe pkid topics) = do
    for_each topics (drop_subscription session_id)
    reply outbound (mqtt.write_unsuback pkid) seen []
  dispatch session_id outbound seen (publish topic payload) = do
    publish_user topic payload
    pure (goes_on seen [])
  dispatch session_id outbound seen ping_req = reply outbound (some (0xD0 ∷ 0x00 ∷ [])) seen []
  dispatch session_id outbound seen disconnect = pure ends
  dispatch session_id outbound seen other = pure (goes_on seen [])

  unfoldable pub handle_packet : ℕ → ℕ → Bool → Packet → M env Handled
  handle_packet session_id outbound seen pkt = do
    count env (λ m. record m { mqtt_packets_in = inc m.mqtt_packets_in })
    dispatch session_id outbound seen pkt
