-- ===== src/Fanout/Objects.antt =====
-- What a session receives of the events of an object.
use geomqtt.Base.{
  ℕ, List, Option, none, some, Bool, true, false, ◌≡◌, refl, ap, ◌∙◌, Text, Bytes, if◌then◌else◌,
}
use geomqtt.Broker.Defs.{Session, Channels}
use geomqtt.Broker.Defs
use geomqtt.Fanout.Defs.{Fanout, publish_object, influx_attr}
use geomqtt.Fanout.Packets.{
  Listens, Sends, message_for, publish_local-message_for, publish_local_runs,
}
use geomqtt.Fanout.Total.{CanEncode}
use geomqtt.Influx.Queue
use geomqtt.Metrics.{inc}
use geomqtt.Payload.Defs.{ObjectPayload, object_fields}
use geomqtt.Topic.{object_topic, redis_object_channel, build_envelope}
use geomqtt.World.{Env, World, ◌>>=◌, ◌>>◌}

module _ (env : Env) (enc : CanEncode env) (id : ℕ) (s : Session) where
  open env use {float, mqtt, to_vec, redis, node_id}
  open float use {F}

  -- The packet of an event of an object, if the session has a filter for the object.
  abbrev pub object_packet : Text → ObjectPayload → List Bytes
  object_packet obid payload =
      message_for env enc id s (object_topic obid) (to_vec (object_fields payload))

  -- The sink is told, which no session sees.
  record Unseen (w w' : World env) : Type 0 where
    chans : w'.chans ≡ w.chans
    broker : w'.broker ≡ w.broker
    clock : w'.clock ≡ w.clock

  influx_attr_quiet :
      (with_influx : Bool) (obid : Text) (payload : ObjectPayload) (w : World env)
      → (w' : World env) × (influx_attr env with_influx obid payload w ≡ some (tt, w'))
        × Unseen w w'
  unfolding influx_attr
  influx_attr_quiet with_influx obid (ObjectPayload.attr i attrs ts) w = go w.influx with_influx
    where
      go :
          (o : Option Queue.Queue) (b : Bool)
          → (w' : World env) × (elim o as (λ _. Option (Unit {0} × World env)) [
            | none ↦ some (tt, w)
            | some q ↦
                if b
                then (let (q', m) = Queue.attr obid attrs q w.metrics in
                    some (tt, record w { influx = some q'; metrics = m }))
                else some (tt, w)
          ]
              ≡ some (tt, w'))
            × Unseen w w'
      go none b = (w, refl, record { chans = refl; broker = refl; clock = refl })
      go (some q) true = (_, refl, record { chans = refl; broker = refl; clock = refl })
      go (some q) false = (w, refl, record { chans = refl; broker = refl; clock = refl })
  influx_attr_quiet with_influx obid (ObjectPayload.snapshot i attrs ts) w =
      (w, refl, record { chans = refl; broker = refl; clock = refl })
  influx_attr_quiet with_influx obid (ObjectPayload.delete i ts) w =
      (w, refl, record { chans = refl; broker = refl; clock = refl })

  -- The state once the local sessions have the message and it is counted.
  abbrev delivered : Channels → World env → World env
  delivered after w = record w {
    chans = after;
    metrics = record w.metrics { object_fanouts = inc w.metrics.object_fanouts };
  }

  publish_object_runs :
      (fanout : Fanout) (obid : Text) (payload : ObjectPayload) (w w1 : World env)
      (after : Channels) (n : ℕ)
      → Defs.publish_local mqtt w.broker
          (object_topic obid)
          (to_vec (object_fields payload))
          w.chans
        ≡ some (after, n)
      → influx_attr env fanout.with_influx obid payload (delivered after w) ≡ some (tt, w1)
      → publish_object env fanout obid payload w
        ≡ some (
          tt,
          record w1 {
            upstream =
                (redis.publish
                  (redis_object_channel obid)
                  (build_envelope node_id (to_vec (object_fields payload)))
                  w1.upstream).0;
          },
        )
  unfolding publish_object
  publish_object_runs fanout obid payload w w1 after n e e' =
      rw (publish_local_runs env enc id s _ _ w after n e, ◌>>=◌, ◌>>◌, e') refl

  pub publish_object-Sends :
      (fanout : Fanout) (obid : Text) (payload : ObjectPayload) (w : World env)
      → Listens env enc id s w
      → (w' : World env) × (publish_object env fanout obid payload w ≡ some (tt, w'))
        × Sends env enc id s (object_packet obid payload) w w'
        × (w'.clock ≡ w.clock)
  publish_object-Sends fanout obid payload w l =
      let (after, n, ran, added, is_open) =
        publish_local-message_for env enc id s (object_topic obid) (to_vec (object_fields payload))
          w l in
      let (w1, told, same) =
        influx_attr_quiet fanout.with_influx obid payload (delivered after w) in
      (
        _,
        publish_object_runs fanout obid payload w w1 after n ran told,
        record {
          added = ap (λ c. (c s.outbound).queue) same.chans ∙ added;
          is_open = ap (λ c. (c s.outbound).is_open) same.chans ∙ is_open;
          broker = same.broker;
        },
        same.clock,
      )
