-- ===== src/Fanout/Attributes.antt =====
-- fanout.rs: what a session receives of the attributes of an object, on the tiles where it is.
use geomqtt.Base.{
  ℕ, suc, List, [], ◌∷◌, ◌++◌, append-nil, Option, none, some, true, false, ◌≡◌, refl, sym, ap, ◌∙◌,
  subst, Text, Bytes,
}
use geomqtt.Base.Assoc.{lookup}
use geomqtt.Broker.Defs.{Session}
use geomqtt.Broker.Invariant.{IsValid}
use geomqtt.Coord.Tile.{tiles_for_point}
use geomqtt.Fanout.Defs.{Fanout, publish_attr, attr_positions, attr_set, on_attr_tile}
use geomqtt.Fanout.Packets.{
  Listens, Sends, packet_for, published, Listens-Sends, Sends-trans, ticked,
}
use geomqtt.Fanout.Total.{CanEncode}
use geomqtt.Payload.Attrs.{Attrs, is_empty}
use geomqtt.Payload.Defs.{TilePayload}
use geomqtt.Topic.{inset_key}
use geomqtt.World.{Env, World, for_each, now_ms, ◌>>=◌}

module _ (env : Env) (enc : CanEncode env) (id : ℕ) (s : Session) (obid : Text)
    (attrs : Attrs) where
  open env use {float, redis}
  open float use {F}

  -- The packets for some tiles of a set, each with its reading of the clock, and the clock after
  -- them.
  abbrev pub tile_packets : Text → List (ℕ × ℕ × ℕ) → (ℕ → ℕ) → List Bytes
  tile_packets set [] clock = []
  tile_packets set (t ∷ ts) clock =
      packet_for env enc id s set t (TilePayload.attr obid attrs (clock 0))
      ++ tile_packets set ts (λ i. clock (suc i))

  abbrev pub clock_after : List (ℕ × ℕ × ℕ) → (ℕ → ℕ) → ℕ → ℕ
  clock_after [] clock = clock
  clock_after (t ∷ ts) clock = clock_after ts (λ i. clock (suc i))

  -- The state of Redis after it has been told of some tiles of a set.
  abbrev pub told_tiles : Text → List (ℕ × ℕ × ℕ) → (ℕ → ℕ) → redis.State → redis.State
  told_tiles set [] clock u = u
  told_tiles set (t ∷ ts) clock u =
      told_tiles set ts (λ i. clock (suc i))
        (published env enc id s set t (TilePayload.attr obid attrs (clock 0)) u)

  publish_attr-Sends :
      (set : Text) (t : ℕ × ℕ × ℕ) (w : World env)
      → Listens env enc id s w
      → (w' : World env) × (publish_attr env set obid attrs t w ≡ some (tt, w'))
        × Sends env enc id s
            (packet_for env enc id s set t (TilePayload.attr obid attrs (w.clock 0)))
            w
            w'
        × (w'.clock ≡ (λ i. w.clock (suc i)))
        × (w'.upstream
            ≡ published env enc id s set t (TilePayload.attr obid attrs (w.clock 0)) w.upstream)
  unfolding publish_attr now_ms
  publish_attr-Sends set (z, x, y) w l =
      ticked env enc id s set (TilePayload.attr obid attrs (w.clock 0)) z x y w l

  next_round :
      {A : Type 0} (x : A) (xs : List A) (body : A → World env → Option (Unit {0} × World env))
      (w w1 w2 : World env)
      → body x w ≡ some (tt, w1)
      → for_each xs body w1 ≡ some (tt, w2)
      → for_each (x ∷ xs) body w ≡ some (tt, w2)
  unfolding for_each
  next_round x xs body w w1 w2 ran ran' = rw (ran, for_each) ran'

  no_packet : (w : World env) → Sends env enc id s [] w w
  no_packet w = record {
    added = sym (append-nil (w.chans s.outbound).queue);
    is_open = refl;
    broker = refl;
  }

  tiles_send :
      (set : Text) (ts : List (ℕ × ℕ × ℕ)) (w : World env)
      → Listens env enc id s w
      → (w' : World env) × (for_each ts (publish_attr env set obid attrs) w ≡ some (tt, w'))
        × Sends env enc id s (tile_packets set ts w.clock) w w'
        × (w'.clock ≡ clock_after ts w.clock)
        × (w'.upstream ≡ told_tiles set ts w.clock w.upstream)
  unfolding for_each
  tiles_send set [] w l = (w, refl, no_packet w, refl, refl)
  tiles_send set (t ∷ ts) w l =
      let (w1, ran, sent, now, told) = publish_attr-Sends set t w l in
      let (w2, ran', sent', now', told') =
        tiles_send set ts w1 (Listens-Sends env enc id s _ w w1 l sent) in
      (
        w2,
        next_round t ts (publish_attr env set obid attrs) w w1 w2 ran ran',
        Sends-trans env enc id s _ (tile_packets set ts (λ i. w.clock (suc i))) w w1 w2 sent
            (subst (λ c. Sends env enc id s (tile_packets set ts c) w1 w2) now sent'),
        now' ∙ ap (clock_after ts) now,
        told'
            ∙ ap (λ c. told_tiles set ts c w1.upstream) now
            ∙ ap (told_tiles set ts (λ i. w.clock (suc i))) told,
      )

  module _ (fanout : Fanout) where
    -- The tiles of a place.
    abbrev tiles_at : F × F → List (ℕ × ℕ × ℕ)
    tiles_at (lon, lat) = tiles_for_point float fanout.enrich_zooms lat lon

    -- The place that Redis answers, if it has one.
    abbrev pub place_in : Option (List (Option (F × F))) → Option (F × F)
    place_in none = none
    place_in (some []) = none
    place_in (some (none ∷ rest)) = none
    place_in (some (some place ∷ rest)) = some place

    abbrev packets_in : Text → Option (F × F) → (ℕ → ℕ) → List Bytes
    packets_in set none clock = []
    packets_in set (some place) clock = tile_packets set (tiles_at place) clock

    abbrev clock_in : Option (F × F) → (ℕ → ℕ) → ℕ → ℕ
    clock_in none clock = clock
    clock_in (some place) clock = clock_after (tiles_at place) clock

    abbrev told_in : Text → Option (F × F) → (ℕ → ℕ) → redis.State → redis.State
    told_in set none clock u = u
    told_in set (some place) clock u = told_tiles set (tiles_at place) clock u

    positions_send :
        (set : Text) (o : Option (List (Option (F × F)))) (w : World env)
        → Listens env enc id s w
        → (w' : World env) × (attr_positions env fanout obid attrs set o w ≡ some (tt, w'))
          × Sends env enc id s (packets_in set (place_in o) w.clock) w w'
          × (w'.clock ≡ clock_in (place_in o) w.clock)
          × (w'.upstream ≡ told_in set (place_in o) w.clock w.upstream)
    unfolding attr_positions
    positions_send set none w l = (w, refl, no_packet w, refl, refl)
    positions_send set (some []) w l = (w, refl, no_packet w, refl, refl)
    positions_send set (some (none ∷ rest)) w l = (w, refl, no_packet w, refl, refl)
    positions_send set (some (some (lon, lat) ∷ rest)) w l =
        tiles_send set (tiles_at (lon, lat)) w l

    -- The place of the object in a set, as Redis answers in a state, and the state after the answer.
    abbrev place_at : Text → redis.State → Option (F × F)
    place_at set u = place_in (redis.geopos set (obid ∷ []) u).1

    abbrev asked : Text → redis.State → redis.State
    asked set u = (redis.geopos set (obid ∷ []) u).0

    -- The packets for some sets. Redis is asked for the place in a set, and told of the tiles of that
    -- place, before it is asked for the place in the next.
    abbrev pub place_packets : List Text → (ℕ → ℕ) → redis.State → List Bytes
    place_packets [] clock u = []
    place_packets (set ∷ sets) clock u =
        packets_in set (place_at set u) clock
        ++ place_packets sets (clock_in (place_at set u) clock)
            (told_in set (place_at set u) clock (asked set u))

    -- The state of Redis after them.
    abbrev pub told_places : List Text → (ℕ → ℕ) → redis.State → redis.State
    told_places [] clock u = u
    told_places (set ∷ sets) clock u =
        told_places sets (clock_in (place_at set u) clock)
          (told_in set (place_at set u) clock (asked set u))

    attr_set-Sends :
        (set : Text) (w : World env)
        → Listens env enc id s w
        → (w' : World env) × (attr_set env fanout obid attrs set w ≡ some (tt, w'))
          × Sends env enc id s (packets_in set (place_at set w.upstream) w.clock) w w'
          × (w'.clock ≡ clock_in (place_at set w.upstream) w.clock)
          × (w'.upstream ≡ told_in set (place_at set w.upstream) w.clock (asked set w.upstream))
    unfolding attr_set
    attr_set-Sends set w l =
        let (w', ran, sent, now, told) =
          positions_send set (redis.geopos set (obid ∷ []) w.upstream).1
            (record w { upstream = asked set w.upstream })
            (record { valid = l.valid; registered = l.registered; connected = l.connected }) in
        (
          w',
          ran,
          record { added = sent.added; is_open = sent.is_open; broker = sent.broker },
          now,
          told,
        )

    sets_send :
        (sets : List Text) (w : World env)
        → Listens env enc id s w
        → (w' : World env) × (for_each sets (attr_set env fanout obid attrs) w ≡ some (tt, w'))
          × Sends env enc id s (place_packets sets w.clock w.upstream) w w'
          × (w'.upstream ≡ told_places sets w.clock w.upstream)
    unfolding for_each
    sets_send [] w l = (w, refl, no_packet w, refl)
    sets_send (set ∷ sets) w l =
        let (w1, ran, sent, now, told) = attr_set-Sends set w l in
        let (w2, ran', sent', told') =
          sets_send sets w1 (Listens-Sends env enc id s _ w w1 l sent) in
        let at_time =
          subst (λ c. Sends env enc id s (place_packets sets c w1.upstream) w1 w2) now sent' in
        (
          w2,
          next_round set sets (attr_set env fanout obid attrs) w w1 w2 ran ran',
          Sends-trans env enc id s _ _ w w1 w2 sent (
              subst
                (λ u.
                  Sends env enc id s
                    (place_packets sets (clock_in (place_at set w.upstream) w.clock) u) w1 w2)
                told at_time),
          told'
              ∙ ap (λ c. told_places sets c w1.upstream) now
              ∙ ap (told_places sets (clock_in (place_at set w.upstream) w.clock)) told,
        )

    -- The attributes of an object, if there are any, go to the tiles of each set that Redis lists for
    -- it and in which Redis has a place for it when it is asked: a registered and connected session
    -- has been sent an `attr` for each such tile that one of its filters matches, in the order of
    -- the sets and of the zoom levels and with its reading of the clock, behind what waited on its
    -- channel, and no other packet. Redis has been asked for the sets, and then for each set asked
    -- for the place and told of its tiles, and nothing else. This holds in a well-formed broker, as
    -- long as packets can be encoded.
    pub on_attr_tile-place_packets :
        (sets : List Text) (w : World env)
        → is_empty attrs ≡ false
        → (redis.smembers (inset_key obid) w.upstream).1 ≡ some sets
        → IsValid w.broker
        → lookup id w.broker.sessions ≡ some s
        → (w.chans s.outbound).is_open ≡ true
        → (w' : World env) × (on_attr_tile env fanout obid attrs w ≡ some (tt, w'))
          × ((w'.chans s.outbound).queue
              ≡ (w.chans s.outbound).queue
                ++ place_packets sets w.clock (redis.smembers (inset_key obid) w.upstream).0)
          × (w'.upstream ≡ told_places sets w.clock (redis.smembers (inset_key obid) w.upstream).0)
    unfolding on_attr_tile
    on_attr_tile-place_packets sets w filled listed valid registered connected =
        let (w', ran, sent, told) =
          sets_send sets (record w { upstream = (redis.smembers (inset_key obid) w.upstream).0 })
            (record { valid = valid; registered = registered; connected = connected }) in
        (w', rw (filled, listed, ◌>>=◌) ran, sent.added, told)
