-- ===== src/Fanout/Packets.antt =====
-- What a session receives of one event.
use geomqtt.Base.{
  ℕ, suc, List, [], ◌∷◌, ◌++◌, append_assoc, Option, none, some, true, ◌≡◌, refl, sym, ap, ◌∙◌,
  subst, Text, Bytes, if◌then◌else◌,
}
use geomqtt.Base.Assoc.{lookup}
use geomqtt.Broker.Defs
use geomqtt.Broker.Defs.{Session, Channels, wants}
use geomqtt.Broker.Delivery.{publish_local_exact}
use geomqtt.Broker.Invariant.{IsValid}
use geomqtt.Broker.Once.{addressed-once, copies-one}
use geomqtt.Fanout.Defs.{publish_tile}
use geomqtt.Fanout.Total.{CanEncode}
use geomqtt.Metrics.{inc}
use geomqtt.Payload.Defs.{TilePayload, tile_fields}
use geomqtt.Topic.{tile_topic, redis_tile_channel, build_envelope}
use geomqtt.World.{Env, World, publish_local}

module _ (env : Env) (enc : CanEncode env) (id : ℕ) (s : Session) where
  open env use {float, mqtt, to_vec, redis, node_id}
  open float use {F}

  -- One session of a broker, which is registered and connected.
  pub record Listens (w : World env) : Type 0 where
    pub valid : IsValid w.broker
    pub registered : lookup id w.broker.sessions ≡ some s
    pub connected : (w.chans s.outbound).is_open ≡ true

  -- The packet of an event, if the session has a filter for its tile.
  abbrev pub packet_for : Text → ℕ × ℕ × ℕ → TilePayload F → List Bytes
  packet_for set (z, x, y) payload =
      if wants mqtt (tile_topic set z x y) s
      then (enc (tile_topic set z x y) (to_vec (tile_fields payload))).0 ∷ []
      else []

  pub record Sends (packets : List Bytes) (w w' : World env) : Type 0 where
    pub added : (w'.chans s.outbound).queue ≡ (w.chans s.outbound).queue ++ packets
    pub is_open : (w'.chans s.outbound).is_open ≡ (w.chans s.outbound).is_open
    pub broker : w'.broker ≡ w.broker

  pub publish_local_runs :
      (topic : Text) (body : Bytes) (w : World env) (after : Channels) (n : ℕ)
      → Defs.publish_local mqtt w.broker topic body w.chans ≡ some (after, n)
      → publish_local env topic body w ≡ some (n, record w { chans = after })
  unfolding publish_local
  publish_local_runs topic body w after n e = rw (e, publish_local) refl

  publish_tile_runs :
      (set : Text) (z x y : ℕ) (payload : TilePayload F) (w : World env) (after : Channels) (n : ℕ)
      → Defs.publish_local mqtt w.broker
          (tile_topic set z x y)
          (to_vec (tile_fields payload))
          w.chans
        ≡ some (after, n)
      → publish_tile env set z x y payload w
        ≡ some (
          tt,
          record w {
            chans = after;
            metrics = record w.metrics { tile_fanouts = inc w.metrics.tile_fanouts };
            upstream =
                (redis.publish
                  (redis_tile_channel set z x y)
                  (build_envelope node_id (to_vec (tile_fields payload)))
                  w.upstream).0;
          },
        )
  unfolding publish_tile
  publish_tile_runs set z x y payload w after n e =
      ap
        (λ o. elim o as (λ _. Option (Unit {0} × World env)) [
          | none ↦ none
          | some (_, v) ↦ some (
            tt,
            record v {
              metrics = record v.metrics { tile_fanouts = inc v.metrics.tile_fanouts };
              upstream =
                  (redis.publish (redis_tile_channel set z x y)
                    (build_envelope node_id (to_vec (tile_fields payload))) v.upstream).0;
            },
          )
        ])
        (publish_local_runs _ _ w after n e)

  -- The packet of a message, if the session has a filter for its topic.
  abbrev pub message_for : Text → Bytes → List Bytes
  message_for topic body = if wants mqtt topic s then (enc topic body).0 ∷ [] else []

  pub publish_local-message_for :
      (topic : Text) (body : Bytes) (w : World env)
      → Listens w
      → (after : Channels) × (n : ℕ) × (Defs.publish_local mqtt w.broker topic body w.chans
          ≡ some (after, n))
        × ((after s.outbound).queue ≡ (w.chans s.outbound).queue ++ message_for topic body)
        × ((after s.outbound).is_open ≡ (w.chans s.outbound).is_open)
  unfolding Defs.encode_publish
  publish_local-message_for topic body w l =
      let (bytes, e) = enc topic body in
      let (after, n, ran, exact, _) =
        publish_local_exact mqtt w.broker topic body bytes w.chans e in
      let once =
        addressed-once mqtt topic id s w.broker.sessions l.registered l.valid.channels_apart in
      (
        after,
        n,
        ran,
        (exact s.outbound).0 ∙ (rw (once, l.connected, copies-one bytes (wants mqtt topic s)) refl),
        (exact s.outbound).1,
      )

  -- What Redis is told of an event.
  abbrev pub published : Text → ℕ × ℕ × ℕ → TilePayload F → redis.State → redis.State
  published set (z, x, y) payload u =
      (redis.publish (redis_tile_channel set z x y)
        (build_envelope node_id (to_vec (tile_fields payload))) u).0

  pub publish_tile-Sends :
      (set : Text) (z x y : ℕ) (payload : TilePayload F) (w : World env)
      → Listens w
      → (w' : World env) × (publish_tile env set z x y payload w ≡ some (tt, w'))
        × Sends (packet_for set (z, x, y) payload) w w'
        × (w'.clock ≡ w.clock)
        × (w'.upstream ≡ published set (z, x, y) payload w.upstream)
  publish_tile-Sends set z x y payload w l =
      let (after, n, ran, added, is_open) =
        publish_local-message_for (tile_topic set z x y) (to_vec (tile_fields payload)) w l in
      (
        _,
        publish_tile_runs set z x y payload w after n ran,
        record { added = added; is_open = is_open; broker = refl },
        refl,
        refl,
      )

  -- The clock is read once.
  abbrev tick : World env → World env
  tick w = record w { clock = λ i. w.clock (suc i) }

  pub Listens-Sends :
      (packets : List Bytes) (w w' : World env) → Listens w → Sends packets w w' → Listens w'
  Listens-Sends packets w w' l k = record {
    valid = subst IsValid (sym k.broker) l.valid;
    registered = ap (λ b. lookup id b.sessions) k.broker ∙ l.registered;
    connected = k.is_open ∙ l.connected;
  }

  pub Sends-trans :
      (p q : List Bytes) (a b c : World env) → Sends p a b → Sends q b c → Sends (p ++ q) a c
  Sends-trans p q a b c k m = record {
    added = m.added ∙ ap (λ l. l ++ q) k.added ∙ append_assoc (a.chans s.outbound).queue p q;
    is_open = m.is_open ∙ k.is_open;
    broker = m.broker ∙ k.broker;
  }

  -- `publish_tile` with the time that has just been read.
  pub ticked :
      (set : Text) (payload : TilePayload F) (z x y : ℕ) (w : World env)
      → Listens w
      → (w' : World env) × (publish_tile env set z x y payload (tick w) ≡ some (tt, w'))
        × Sends (packet_for set (z, x, y) payload) w w'
        × (w'.clock ≡ (λ i. w.clock (suc i)))
        × (w'.upstream ≡ published set (z, x, y) payload w.upstream)
  ticked set payload z x y w l =
      let (w', ran, sent, now, told) =
        publish_tile-Sends set z x y payload (tick w)
          (record { valid = l.valid; registered = l.registered; connected = l.connected }) in
      (
        w',
        ran,
        record { added = sent.added; is_open = sent.is_open; broker = sent.broker },
        now,
        told,
      )
