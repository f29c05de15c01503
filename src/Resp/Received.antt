-- ===== src/Resp/Received.antt =====
-- resp.rs: what a session receives of a `GEOADD`.
use geomqtt.Base.{
  ℕ, List, [], ◌∷◌, ◌++◌, Option, some, true, false, ◌≡◌, refl, ◌∙◌, Text, lit, text_eq,
}
use geomqtt.Base.Assoc.{lookup}
use geomqtt.Broker.Defs.{Session}
use geomqtt.Broker.Invariant.{IsValid}
use geomqtt.Fanout.Defs.{on_geo_write}
use geomqtt.Fanout.Packets.{Listens, Sends}
use geomqtt.Fanout.Received.{write_packets, on_geo_write-Sends}
use geomqtt.Fanout.Total.{CanEncode}
use geomqtt.Metrics.{inc}
use geomqtt.Mqtt.Attributes.{Settings, hmget_enrich, or_empty}
use geomqtt.Mqtt.Quiet.{hmget_enrich-IsQuiet}
use geomqtt.Payload.Attrs.{Attrs}
use geomqtt.Resp.Args.{
  to_ascii_uppercase, is_flag, coordinate, skip_flags, triples, extract_geoadd_members,
  frame_to_args,
}
use geomqtt.Resp.Failure.{IsError}
use geomqtt.Resp.Frame.{Resp2Frame}
use geomqtt.Resp.Handle.{
  Prefetch, old_position, fanout, geoadd_members, count_write, geoadd, publish_write, geopos_batch,
  fetched, fetch, fetch_members, fetch_geoadd, prefetch, run_command, run_args, handle_command,
}
use geomqtt.Resp.Runs.{response_to, begun, after_answer_runs, run_command_runs}
use geomqtt.World.{Env, World, ◌>>=◌, ◌>>◌}
use geomqtt.World.Quiet.{Keeps-value}

module _ (env : Env) (cfg : Settings) (enc : CanEncode env) (id : ℕ) (s : Session) where
  open env use {float, redis}
  open float use {F}

  -- The state with another upstream and other counters.
  abbrev counted : World env → env.redis.State → World env
  counted w u = record w {
    upstream = u;
    metrics = record w.metrics { resp_geo_writes = inc w.metrics.resp_geo_writes };
  }

  geoadd_one_runs :
      (set member : Text) (new : F × F) (old : Option (F × F)) (rest : List (Option (F × F)))
      (attrs : Option Attrs) (u : env.redis.State) (w w' : World env)
      → hmget_enrich env cfg member w ≡ some (attrs, record w { upstream = u })
      → on_geo_write env (fanout env cfg) set member old new (or_empty attrs) (counted w u)
        ≡ some (tt, w')
      → geoadd_members env cfg set (new ∷ []) (old ∷ rest) 0 (member ∷ []) w ≡ some (tt, w')
  unfolding geoadd_members count_write old_position
  geoadd_one_runs set member new old rest attrs u w w' e e' = rw (e, e', ◌>>=◌, ◌>>◌) refl

  -- The attributes that go with the position: what is read at the time.
  abbrev pub Reads : Text → Option Attrs → World env → Type 0
  Reads member attrs w =
      (u : env.redis.State) × (hmget_enrich env cfg member w
        ≡ some (attrs, record w { upstream = u }))

  geoadd_one-Sends :
      (set member : Text) (new : F × F) (old : Option (F × F)) (rest : List (Option (F × F)))
      (w : World env)
      → Listens env enc id s w
      → (attrs : Option Attrs) × (w' : World env) × Reads member attrs w
        × (geoadd_members env cfg set (new ∷ []) (old ∷ rest) 0 (member ∷ []) w ≡ some (tt, w'))
        × Sends env enc id s
            (write_packets env enc id s
              (fanout env cfg)
              set
              member
              old
              new
              (or_empty attrs)
              w.clock)
            w
            w'
  geoadd_one-Sends set member new old rest w l =
      let (attrs, u, e) =
        Keeps-value env w (hmget_enrich env cfg member w) (hmget_enrich-IsQuiet env cfg member w) in
      let listens : Listens env enc id s (counted w u) = record {
        valid = l.valid;
        registered = l.registered;
        connected = l.connected;
      } in
      let (w', ran, sent) =
        on_geo_write-Sends env enc id s (fanout env cfg) set member old new (or_empty attrs)
          (counted w u) listens in
      (
        attrs,
        w',
        (u, e),
        geoadd_one_runs set member new old rest attrs u w w' e ran,
        record { added = sent.added; is_open = sent.is_open; broker = sent.broker },
      )

  module _ (name set lon lat member : Text) (is_geoadd : to_ascii_uppercase name ≡ lit "GEOADD")
      (no_flag : is_flag lon ≡ false) where
    abbrev words : List Text
    words = name ∷ set ∷ lon ∷ lat ∷ member ∷ []

    abbrev new_position : F × F
    new_position = (coordinate float lon, coordinate float lat)

    members_of :
        extract_geoadd_members float (lon ∷ lat ∷ member ∷ []) ≡ (member ∷ [], new_position ∷ [])
    unfolding extract_geoadd_members skip_flags triples
    members_of = rw (no_flag, skip_flags) refl

    publish_write_runs :
        (old : Option (F × F)) (rest : List (Option (F × F))) (w : World env)
        → publish_write env cfg
            (lit "GEOADD")
            words
            (record { set = some set; members = member ∷ []; positions = old ∷ rest })
            w
          ≡ geoadd_members env cfg set (new_position ∷ []) (old ∷ rest) 0 (member ∷ []) w
    unfolding publish_write geoadd text_eq
    publish_write_runs old rest w = rw members_of refl

    prefetch_runs :
        (positions : Option (List (Option (F × F)))) (w : World env)
        → (redis.geopos set (member ∷ []) w.upstream).1 ≡ positions
        → prefetch env cfg (lit "GEOADD") words w
          ≡ some (
            fetched env cfg set (member ∷ []) positions,
            record w { upstream = (redis.geopos set (member ∷ []) w.upstream).0 },
          )
    unfolding prefetch fetch_geoadd fetch_members fetch geopos_batch text_eq
    prefetch_runs positions w e = rw (members_of, e) refl

    -- The state of Redis once the old position is fetched, and the state in which the answer came.
    abbrev pub fetched_at : World env → env.redis.State
    fetched_at w = (redis.geopos set (member ∷ []) w.upstream).0

    abbrev pub answered_at : World env → World env
    answered_at w = record (begun env cfg w) {
      upstream = (redis.custom_raw words (fetched_at w)).0;
    }

    -- For a session whose channel is open, a `GEOADD` of one member that Redis does not refuse is
    -- answered as Redis answers, and puts the packets of the move into the channel.
    run_command-Sends :
        (old : Option (F × F)) (rest : List (Option (F × F))) (w : World env)
        → (redis.geopos set (member ∷ []) w.upstream).1 ≡ some (old ∷ rest)
        → (IsError (response_to env cfg words (fetched_at w)) → ⊥)
        → Listens env enc id s w
        → (attrs : Option Attrs) × (w' : World env) × Reads member attrs (answered_at w)
          × (run_command env cfg name (set ∷ lon ∷ lat ∷ member ∷ []) w
              ≡ some (response_to env cfg words (fetched_at w), w'))
          × Sends env enc id s
              (write_packets env enc id s
                (fanout env cfg)
                set
                member
                old
                new_position
                (or_empty attrs)
                w.clock)
              (answered_at w)
              w'
    unfolding fetched
    run_command-Sends old rest w found accepted l =
        let listens : Listens env enc id s (answered_at w) = record {
          valid = l.valid;
          registered = l.registered;
          connected = l.connected;
        } in
        let (attrs, w', reads, ran, sent) =
          geoadd_one-Sends set member new_position old rest (answered_at w) listens in
        let pre : Prefetch F = record {
          set = some set;
          members = member ∷ [];
          positions = old ∷ rest;
        } in
        let published = publish_write_runs old rest (answered_at w) ∙ ran in
        let answered =
          after_answer_runs env cfg (lit "GEOADD") words (response_to env cfg words (fetched_at w))
            pre (answered_at w) w' accepted published in
        let asked = prefetch_runs (some (old ∷ rest)) (begun env cfg w) found in
        (
          attrs,
          w',
          reads,
          run_command_runs env cfg name (set ∷ lon ∷ lat ∷ member ∷ []) pre w
              (record (begun env cfg w) { upstream = fetched_at w }) _ (rw is_geoadd asked)
              (rw is_geoadd answered),
          sent,
        )

    -- A `GEOADD` of one member with no flag is handled, and answered as Redis answers to it. If the
    -- answer is no error, a registered and connected session has been sent the packets of the move
    -- from the position that Redis held before the command to the one in the command, behind what
    -- waited on its channel, and no other packet. The attributes on them are those that are read
    -- after the answer. This holds in a well-formed broker, as long as packets can be encoded, and
    -- if Redis gives the old position.
    pub handle_command-write_packets :
        (frame : Resp2Frame) (old : Option (F × F)) (rest : List (Option (F × F))) (w : World env)
        → frame_to_args frame ≡ some words
        → (redis.geopos set (member ∷ []) w.upstream).1 ≡ some (old ∷ rest)
        → (IsError (response_to env cfg words (fetched_at w)) → ⊥)
        → IsValid w.broker
        → lookup id w.broker.sessions ≡ some s
        → (w.chans s.outbound).is_open ≡ true
        → (attrs : Option Attrs) × (w' : World env) × Reads member attrs (answered_at w)
          × (handle_command env cfg frame w ≡ some (response_to env cfg words (fetched_at w), w'))
          × ((w'.chans s.outbound).queue
              ≡ (w.chans s.outbound).queue
                ++ write_packets env enc id s
                    (fanout env cfg)
                    set
                    member
                    old
                    new_position
                    (or_empty attrs)
                    w.clock)
    unfolding handle_command run_args
    handle_command-write_packets frame old rest w named found accepted valid registered connected =
        let listens : Listens env enc id s w = record {
          valid = valid;
          registered = registered;
          connected = connected;
        } in
        let (attrs, w', reads, ran, sent) = run_command-Sends old rest w found accepted listens in
        (attrs, w', reads, rw named ran, sent.added)
