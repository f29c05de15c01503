-- ===== src/Resp/Deleted.antt =====
-- resp.rs: what a session receives of a `DEL`.
use geomqtt.Base.{
  ℕ, suc, List, [], ◌∷◌, ◌++◌, append-nil, Option, none, some, ◌≡◌, refl, sym, subst, Text, Bytes,
  lit, text_eq, true, strip_prefix,
}
use geomqtt.Base.Assoc.{lookup}
use geomqtt.Broker.Defs.{Session}
use geomqtt.Broker.Invariant.{IsValid}
use geomqtt.Fanout.Objects.{object_packet, publish_object-Sends}
use geomqtt.Fanout.Packets.{Listens, Sends, Listens-Sends, Sends-trans}
use geomqtt.Fanout.Defs.{publish_object}
use geomqtt.Fanout.Total.{CanEncode}
use geomqtt.Mqtt.Attributes.{Settings}
use geomqtt.Payload.Defs.{ObjectPayload}
use geomqtt.Resp.Args.{to_ascii_uppercase, frame_to_args}
use geomqtt.Resp.Failure.{IsError}
use geomqtt.Resp.Frame.{Resp2Frame}
use geomqtt.Resp.Handle.{
  nothing_fetched, fanout, with_object, delete_key, handle_del, publish_write, prefetch,
  run_command, run_args, handle_command,
}
use geomqtt.Resp.Runs.{response_to, begun, after_answer_runs, run_command_runs}
use geomqtt.World.{Env, World, M, ◌>>=◌, pure, for_each, now_ms}

module _ (env : Env) (cfg : Settings) (enc : CanEncode env) (id : ℕ) (s : Session) where
  open env use {redis}

  -- The packet for a key that is deleted, if it is the key of an object, and the clock after that.
  abbrev deletion_of : Option Text → (ℕ → ℕ) → List Bytes
  deletion_of none clock = []
  deletion_of (some obid) clock =
      object_packet env enc id s obid (ObjectPayload.delete obid (clock 0))

  abbrev later : Option Text → (ℕ → ℕ) → ℕ → ℕ
  later none clock = clock
  later (some obid) clock = λ i. clock (suc i)

  abbrev object_of : Text → Option Text
  object_of key = strip_prefix key cfg.object_key_prefix

  abbrev pub deletions : List Text → (ℕ → ℕ) → List Bytes
  deletions [] clock = []
  deletions (key ∷ keys) clock =
      deletion_of (object_of key) clock ++ deletions keys (later (object_of key) clock)

  delete_key-Sends :
      (key : Text) (w : World env)
      → Listens env enc id s w
      → (w' : World env) × (delete_key env cfg key w ≡ some (tt, w'))
        × Sends env enc id s (deletion_of (object_of key) w.clock) w w'
        × (w'.clock ≡ later (object_of key) w.clock)
  unfolding delete_key with_object now_ms
  delete_key-Sends key w l = go (object_of key)
    where
      go :
          (o : Option Text)
          → (w' : World env) × ((elim o as (λ _. M env (Unit {0})) [
            | none ↦ pure tt
            | some obid ↦
                (now_ms env >>= λ ts.
                publish_object env (fanout env cfg) obid (ObjectPayload.delete obid ts))
          ])
                w
              ≡ some (tt, w'))
            × Sends env enc id s (deletion_of o w.clock) w w'
            × (w'.clock ≡ later o w.clock)
      go none = (
        w,
        refl,
        record {
          added = sym (append-nil (w.chans s.outbound).queue);
          is_open = refl;
          broker = refl;
        },
        refl,
      )
      go (some obid) =
          let (w', ran, sent, now) =
            publish_object-Sends env enc id s (fanout env cfg) obid
              (ObjectPayload.delete obid (w.clock 0)) (record w { clock = λ i. w.clock (suc i) })
              (record { valid = l.valid; registered = l.registered; connected = l.connected }) in
          (
            w',
            ran,
            record { added = sent.added; is_open = sent.is_open; broker = sent.broker },
            now,
          )

  next_key :
      (key : Text) (keys : List Text) (w w1 w2 : World env)
      → delete_key env cfg key w ≡ some (tt, w1)
      → for_each keys (delete_key env cfg) w1 ≡ some (tt, w2)
      → for_each (key ∷ keys) (delete_key env cfg) w ≡ some (tt, w2)
  unfolding for_each
  next_key key keys w w1 w2 ran ran' = rw (ran, for_each) ran'

  keys_send :
      (keys : List Text) (w : World env)
      → Listens env enc id s w
      → (w' : World env) × (for_each keys (delete_key env cfg) w ≡ some (tt, w'))
        × Sends env enc id s (deletions keys w.clock) w w'
  unfolding for_each
  keys_send [] w l = (
    w,
    refl,
    record { added = sym (append-nil (w.chans s.outbound).queue); is_open = refl; broker = refl },
  )
  keys_send (key ∷ keys) w l =
      let (w1, ran, sent, now) = delete_key-Sends key w l in
      let (w2, ran', sent') = keys_send keys w1 (Listens-Sends env enc id s _ w w1 l sent) in
      (
        w2,
        next_key key keys w w1 w2 ran ran',
        Sends-trans env enc id s (deletion_of (object_of key) w.clock)
            (deletions keys (later (object_of key) w.clock)) w w1 w2 sent
            (subst (λ c. Sends env enc id s (deletions keys c) w1 w2) now sent'),
      )

  module _ (name : Text) (keys : List Text) (is_del : to_ascii_uppercase name ≡ lit "DEL") where
    -- The state in which the answer of Redis came.
    abbrev pub answered_at : World env → World env
    answered_at w = record (begun env cfg w) {
      upstream = (redis.custom_raw (name ∷ keys) w.upstream).0;
    }

    publish_write_runs :
        (w w' : World env)
        → for_each keys (delete_key env cfg) w ≡ some (tt, w')
        → publish_write env cfg (lit "DEL") (name ∷ keys) nothing_fetched w ≡ some (tt, w')
    unfolding publish_write handle_del text_eq
    publish_write_runs w w' ran = ran

    prefetch_runs :
        (w : World env) → prefetch env cfg (lit "DEL") (name ∷ keys) w ≡ some (nothing_fetched, w)
    unfolding prefetch text_eq
    prefetch_runs w = refl

    -- A `DEL` is handled, and answered as Redis answers to it. If the answer is no error, a registered
    -- and connected session has been sent the `delete` of each object whose key is among the keys
    -- and which one of its filters matches, in the order of the keys and with its reading of the
    -- clock, behind what waited on its channel, and no other packet. This holds in a well-formed
    -- broker, as long as packets can be encoded.
    pub handle_command-deletions :
        (frame : Resp2Frame) (w : World env)
        → frame_to_args frame ≡ some (name ∷ keys)
        → (IsError (response_to env cfg (name ∷ keys) w.upstream) → ⊥)
        → IsValid w.broker
        → lookup id w.broker.sessions ≡ some s
        → (w.chans s.outbound).is_open ≡ true
        → (w' : World env) × (handle_command env cfg frame w
            ≡ some (response_to env cfg (name ∷ keys) w.upstream, w'))
          × ((w'.chans s.outbound).queue ≡ (w.chans s.outbound).queue ++ deletions keys w.clock)
    unfolding handle_command run_args
    handle_command-deletions frame w named accepted valid registered connected =
        let listens : Listens env enc id s (answered_at w) = record {
          valid = valid;
          registered = registered;
          connected = connected;
        } in
        let (w', ran, sent) = keys_send keys (answered_at w) listens in
        let answered =
          after_answer_runs env cfg (lit "DEL") (name ∷ keys)
            (response_to env cfg (name ∷ keys) w.upstream) nothing_fetched (answered_at w) w'
            accepted (publish_write_runs (answered_at w) w' ran) in
        let handled : run_command env cfg name keys w
            ≡ some (response_to env cfg (name ∷ keys) w.upstream, w') =
          run_command_runs env cfg name keys nothing_fetched w (begun env cfg w) _
            (rw is_del (prefetch_runs (begun env cfg w))) (rw is_del answered) in
        (w', rw named handled, sent.added)
