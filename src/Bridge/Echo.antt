-- ===== src/Bridge/Echo.antt =====
-- redis.rs: what a node makes of the messages that it published itself.
use geomqtt.Base.{
  ℕ, ◌++◌, Option, none, some, true, ◌≡◌, sym, ap, ◌∙◌, subst, Text, Bytes, Lacks, is_utf8,
  text_eq_refl,
}
use geomqtt.Base.Assoc.{lookup}
use geomqtt.Bridge.Defs.{message, take_apart, receive}
use geomqtt.Broker.Defs.{Session}
use geomqtt.Broker.Invariant.{IsValid}
use geomqtt.Fanout.Defs.{publish_tile}
use geomqtt.Fanout.Packets.{packet_for, published, publish_tile-Sends}
use geomqtt.Fanout.Total.{CanEncode}
use geomqtt.Payload.Defs.{TilePayload, tile_fields}
use geomqtt.Topic.{redis_tile_channel, build_envelope, make_node_id}
use geomqtt.Topic.NodeId.{make_node_id-Lacks, make_node_id-utf8}
use geomqtt.Topic.RoundTrip.{split_envelope-build_envelope}
use geomqtt.World.{Env, World, ◌>>◌}

module _ (env : Env) where
  open env use {node_id}

  -- A message of the node itself changes nothing.
  receive_own :
      (channel : Text) (body : Bytes) (w : World env)
      → Lacks b'|' node_id
      → is_utf8 node_id ≡ true
      → receive env (message channel (some (build_envelope node_id body))) w ≡ some (tt, w)
  unfolding receive take_apart
  receive_own channel body w plain valid =
      rw (split_envelope-build_envelope node_id body plain valid, take_apart, text_eq_refl node_id)

module _ (env : Env) (enc : CanEncode env) (id : ℕ) (s : Session) where
  open env use {float, to_vec, node_id}
  open float use {F}

  -- An event that a node publishes for a tile comes back to it from Redis, and still a registered and
  -- connected session has been sent it once, if one of its filters matches the tile, and otherwise
  -- nothing; Redis has been told of the event once. This holds in a well-formed broker, as long as
  -- packets can be encoded, whatever the process id and the clock are that the node's id is made of.
  pub receive-once :
      (pid nanos : ℕ) (set : Text) (z x y : ℕ) (payload : TilePayload F) (w : World env)
      → node_id ≡ make_node_id pid nanos
      → IsValid w.broker
      → lookup id w.broker.sessions ≡ some s
      → (w.chans s.outbound).is_open ≡ true
      → (w' : World env) × ((do
        publish_tile env set z x y payload
        receive env (
            message
              (redis_tile_channel set z x y)
              (some (build_envelope node_id (to_vec (tile_fields payload))))))
            w
          ≡ some (tt, w'))
        × ((w'.chans s.outbound).queue
            ≡ (w.chans s.outbound).queue ++ packet_for env enc id s set (z, x, y) payload)
        × (w'.upstream ≡ published env enc id s set (z, x, y) payload w.upstream)
  receive-once pid nanos set z x y payload w own valid registered connected =
      let (w', ran, sent, now, told) =
        publish_tile-Sends env enc id s set z x y payload w
          (record { valid = valid; registered = registered; connected = connected }) in
      let back =
        receive_own env (redis_tile_channel set z x y) (to_vec (tile_fields payload)) w'
          (subst (λ n. Lacks b'|' n) (sym own) (make_node_id-Lacks pid nanos))
          (subst (λ n. is_utf8 n ≡ true) (sym own) (make_node_id-utf8 pid nanos)) in
      (
        w',
        ap
              (λ o. elim o as (λ _. Option (Unit {0} × World env)) [
                | none ↦ none
                | some (_, v) ↦
                    receive env
                      (message (redis_tile_channel set z x y)
                        (some (build_envelope node_id (to_vec (tile_fields payload)))))
                      v
              ])
              ran
            ∙ back,
        sent.added,
        told,
      )
