-- ===== src/Fanout/Received.antt =====
-- What a session receives of a write.
use geomqtt.Base.{
  ℕ, suc, List, [], ◌∷◌, ◌++◌, append-nil, Option, none, some, Bool, true, false, ◌≡◌, refl, sym,
  ap, ◌∙◌, subst, Text, Bytes, if◌then◌else◌,
}
use geomqtt.Base.Assoc.{lookup}
use geomqtt.Broker.Defs.{Session}
use geomqtt.Broker.Invariant.{IsValid}
use geomqtt.Coord.Tile.{tiles_for_point}
use geomqtt.Fanout.Defs.{
  Fanout, publish_add, publish_move, publish_remove, tiles_of, on_geo_write, influx_position,
  finite,
}
use geomqtt.Fanout.Plan.{Event, adds, moves, removes, plan, publish_event, on_geo_write-plan}
use geomqtt.Fanout.Total.{CanEncode}
use geomqtt.Influx.Queue
use geomqtt.Payload.Attrs.{Attrs}
use geomqtt.Payload.Defs.{TilePayload}
use geomqtt.Topic.{inset_key}
use geomqtt.World.{Env, World, for_each, now_ms}
use geomqtt.Fanout.Packets.{
  Listens, Sends, packet_for, published, Listens-Sends, Sends-trans, ticked,
}

module _ (env : Env) (enc : CanEncode env) (id : ℕ) (s : Session) where
  open env use {float, mqtt, to_vec, redis, node_id}
  open float use {F}

  module _ (set member : Text) (lat lng : F) (attrs : Attrs) where
    -- What is sent of an event at a time.
    abbrev pub packet_of : Event → ℕ → List Bytes
    packet_of (adds t) ts = packet_for env enc id s set t (TilePayload.add member lat lng attrs ts)
    packet_of (moves t) ts = packet_for env enc id s set t (TilePayload.move member lat lng ts)
    packet_of (removes t) ts = packet_for env enc id s set t (TilePayload.remove member ts)

    -- What is sent of some events, each with its own reading of the clock.
    abbrev pub packets_of : List Event → (ℕ → ℕ) → List Bytes
    packets_of [] clock = []
    packets_of (e ∷ es) clock = packet_of e (clock 0) ++ packets_of es (λ i. clock (suc i))

    -- What Redis is told of an event at a time.
    abbrev told_of : Event → ℕ → redis.State → redis.State
    told_of (adds t) ts = published env enc id s set t (TilePayload.add member lat lng attrs ts)
    told_of (moves t) ts = published env enc id s set t (TilePayload.move member lat lng ts)
    told_of (removes t) ts = published env enc id s set t (TilePayload.remove member ts)

    -- The state of Redis after some events, each with its own reading of the clock.
    abbrev pub told_all : List Event → (ℕ → ℕ) → redis.State → redis.State
    told_all [] clock u = u
    told_all (e ∷ es) clock u = told_all es (λ i. clock (suc i)) (told_of e (clock 0) u)

    publish_event-Sends :
        (e : Event) (w : World env)
        → Listens env enc id s w
        → (w' : World env) × (publish_event env set member lat lng attrs e w ≡ some (tt, w'))
          × Sends env enc id s (packet_of e (w.clock 0)) w w'
          × (w'.clock ≡ (λ i. w.clock (suc i)))
          × (w'.upstream ≡ told_of e (w.clock 0) w.upstream)
    unfolding publish_add publish_move publish_remove now_ms
    publish_event-Sends (adds (z, x, y)) w l =
        ticked env enc id s set (TilePayload.add member lat lng attrs (w.clock 0)) z x y w l
    publish_event-Sends (moves (z, x, y)) w l =
        ticked env enc id s set (TilePayload.move member lat lng (w.clock 0)) z x y w l
    publish_event-Sends (removes (z, x, y)) w l =
        ticked env enc id s set (TilePayload.remove member (w.clock 0)) z x y w l

    for_each_next :
        (e : Event) (es : List Event) (w w1 w2 : World env)
        → publish_event env set member lat lng attrs e w ≡ some (tt, w1)
        → for_each es (publish_event env set member lat lng attrs) w1 ≡ some (tt, w2)
        → for_each (e ∷ es) (publish_event env set member lat lng attrs) w ≡ some (tt, w2)
    unfolding for_each
    for_each_next e es w w1 w2 ran ran' = rw (ran, for_each) ran'

    pub events_send :
        (es : List Event) (w : World env)
        → Listens env enc id s w
        → (w' : World env) × (for_each es (publish_event env set member lat lng attrs) w
            ≡ some (tt, w'))
          × Sends env enc id s (packets_of es w.clock) w w'
          × (w'.upstream ≡ told_all es w.clock w.upstream)
    unfolding for_each
    events_send [] w l = (
      w,
      refl,
      record { added = sym (append-nil (w.chans s.outbound).queue); is_open = refl; broker = refl },
      refl,
    )
    events_send (e ∷ es) w l =
        let (w1, ran, sent, now, told) = publish_event-Sends e w l in
        let (w2, ran', sent', told') =
          events_send es w1 (Listens-Sends env enc id s _ w w1 l sent) in
        (
          w2,
          for_each_next e es w w1 w2 ran ran',
          Sends-trans env enc id s (packet_of e (w.clock 0)) (packets_of es (λ i. w.clock (suc i)))
              w w1 w2 sent (subst (λ c. Sends env enc id s (packets_of es c) w1 w2) now sent'),
          told'
              ∙ ap (λ c. told_all es c w1.upstream) now
              ∙ ap (told_all es (λ i. w.clock (suc i))) told,
        )

  -- The sink is told, which no session sees.
  influx_quiet :
      (with_influx : Bool) (set member : Text) (lon lat : F) (w : World env)
      → (w1 : World env) × (influx_position env with_influx set member lon lat w ≡ some (tt, w1))
        × (w1.chans ≡ w.chans)
        × (w1.broker ≡ w.broker)
        × (w1.clock ≡ w.clock)
  unfolding influx_position
  influx_quiet with_influx set member lon lat w = go w.influx with_influx
    where
      go :
          (o : Option Queue.Queue) (b : Bool)
          → (w1 : World env) × (elim o as (λ _. Option (Unit {0} × World env)) [
            | none ↦ some (tt, w)
            | some q ↦
                if b
                then (let (q', m) =
                      Queue.position set member (finite env lon) (finite env lat) q w.metrics in
                    some (tt, record w { influx = some q'; metrics = m }))
                else some (tt, w)
          ]
              ≡ some (tt, w1))
            × (w1.chans ≡ w.chans)
            × (w1.broker ≡ w.broker)
            × (w1.clock ≡ w.clock)
      go none b = (w, refl, refl, refl, refl)
      go (some q) true = (_, refl, refl, refl, refl)
      go (some q) false = (w, refl, refl, refl, refl)

  write_runs :
      (fanout : Fanout) (set member : Text) (old_pos : Option (F × F)) (lon lat : F) (attrs : Attrs)
      (w w1 w2 : World env)
      → influx_position env fanout.with_influx set member lon lat w ≡ some (tt, w1)
      → for_each
          (plan
            (tiles_of env fanout.enrich_zooms old_pos)
            (tiles_for_point float fanout.enrich_zooms lat lon))
          (publish_event env set member lat lon attrs)
          w1
        ≡ some (tt, w2)
      → on_geo_write env fanout set member old_pos (lon, lat) attrs w
        ≡ some (tt, record w2 { upstream = (redis.sadd (inset_key member) set w2.upstream).0 })
  write_runs fanout set member old_pos lon lat attrs w w1 w2 e e' =
      on_geo_write-plan env fanout set member old_pos lon lat attrs w
      ∙ ap
          (λ o. elim o as (λ _. Option (Unit {0} × World env)) [
            | none ↦ none
            | some (_, v) ↦ recorded (
                for_each
                  (plan (tiles_of env fanout.enrich_zooms old_pos)
                    (tiles_for_point float fanout.enrich_zooms lat lon))
                  (publish_event env set member lat lon attrs) v)
          ])
          e
      ∙ ap recorded e'
    where
      recorded : Option (Unit {0} × World env) → Option (Unit {0} × World env)
      recorded none = none
      recorded (some (_, u)) =
          some (tt, record u { upstream = (redis.sadd (inset_key member) set u.upstream).0 })

  -- The packets of a write.
  abbrev pub write_packets :
      Fanout → Text → Text → Option (F × F) → F × F → Attrs → (ℕ → ℕ) → List Bytes
  write_packets fanout set member old_pos (lon, lat) attrs = packets_of set member lat lon attrs (
      plan (tiles_of env fanout.enrich_zooms old_pos)
        (tiles_for_point float fanout.enrich_zooms lat lon))

  pub on_geo_write-Sends :
      (fanout : Fanout) (set member : Text) (old_pos : Option (F × F)) (new : F × F) (attrs : Attrs)
      (w : World env)
      → Listens env enc id s w
      → (w' : World env) × (on_geo_write env fanout set member old_pos new attrs w ≡ some (tt, w'))
        × Sends env enc id s (write_packets fanout set member old_pos new attrs w.clock) w w'
  on_geo_write-Sends fanout set member old_pos (lon, lat) attrs w l =
      let (w1, told, chans, broker, clock) = influx_quiet fanout.with_influx set member lon lat w in
      let events =
        plan (tiles_of env fanout.enrich_zooms old_pos)
          (tiles_for_point float fanout.enrich_zooms lat lon) in
      let listens : Listens env enc id s w1 = record {
        valid = subst IsValid (sym broker) l.valid;
        registered = ap (λ b. lookup id b.sessions) broker ∙ l.registered;
        connected = ap (λ c. (c s.outbound).is_open) chans ∙ l.connected;
      } in
      let (w2, ran, sent, _) = events_send set member lat lon attrs events w1 listens in
      (
        _,
        write_runs fanout set member old_pos lon lat attrs w w1 w2 told ran,
        record {
          added =
              sent.added
              ∙ ap
                  (λ c. (c s.outbound).queue ++ packets_of set member lat lon attrs events w1.clock)
                  chans
              ∙ ap (λ c. (w.chans s.outbound).queue ++ packets_of set member lat lon attrs events c)
                  clock;
          is_open = sent.is_open ∙ ap (λ c. (c s.outbound).is_open) chans;
          broker = sent.broker ∙ broker;
        },
      )

  -- After a position is written, a registered and connected session has been sent the packets of the
  -- planned events on the tiles that one of its filters matches, each once, in the order of the
  -- plan and with its reading of the clock, behind what waited on its channel, and no other packet.
  -- This holds in a well-formed broker, as long as packets can be encoded.
  pub on_geo_write-packets_of :
      (fanout : Fanout) (set member : Text) (old_pos : Option (F × F)) (lon lat : F) (attrs : Attrs)
      (w : World env)
      → IsValid w.broker
      → lookup id w.broker.sessions ≡ some s
      → (w.chans s.outbound).is_open ≡ true
      → (w' : World env) × (on_geo_write env fanout set member old_pos (lon, lat) attrs w
          ≡ some (tt, w'))
        × ((w'.chans s.outbound).queue
            ≡ (w.chans s.outbound).queue
              ++ packets_of set member lat lon attrs
                  (plan
                    (tiles_of env fanout.enrich_zooms old_pos)
                    (tiles_for_point float fanout.enrich_zooms lat lon))
                  w.clock)
  on_geo_write-packets_of fanout set member old_pos lon lat attrs w v l o =
      let listens : Listens env enc id s w = record { valid = v; registered = l; connected = o } in
      let (w', ran, sent) =
        on_geo_write-Sends fanout set member old_pos (lon, lat) attrs w listens in
      (w', ran, sent.added)
