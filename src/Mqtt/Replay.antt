-- ===== src/Mqtt/Replay.antt =====
-- mqtt.rs: what a subscription to a tile is answered with.
use geomqtt.Base.{
  ℕ, suc, List, [], ◌∷◌, ◌++◌, append-nil, append_assoc, Option, some, true, ◌≡◌, ◌≢◌, refl, sym,
  ap, subst, ◌∙◌, arith, Text, Bytes,
}
use geomqtt.Base.Assoc.{lookup}
use geomqtt.Broker.Defs
use geomqtt.Broker.Defs.{Channels, Session, encode_publish}
use geomqtt.Coord.Tile.{bbox_for_tile}
use geomqtt.Fanout.Total.{CanEncode}
use geomqtt.Payload.Attrs.{Attrs}
use geomqtt.Payload.Defs.{TilePayload, tile_fields}
use geomqtt.Topic.{tile_topic}
use geomqtt.Mqtt.Attributes.{Settings, hmget_enrich, or_empty}
use geomqtt.Mqtt.Geo.{GeoHit, box_of, geosearch_box}
use geomqtt.Mqtt.Quiet.{hmget_enrich-IsQuiet, geosearch_box-IsQuiet}
use geomqtt.Mqtt.Snapshot.{encoded, snapshot_hit, snapshot_hits, snapshot_tile}
use geomqtt.World.{Env, World, ◌>>=◌, ◌>>◌, for_each, now_ms, send_direct}
use geomqtt.World.Quiet.{Keeps, Keeps-value}

module _ (env : Env) (cfg : Settings) (enc : CanEncode env) where
  open env use {float, mqtt, to_vec}
  open float use {F}

  -- The bytes are the PUBLISH packet of a `snapshot` event of the member, at the place where it was
  -- found.
  abbrev pub Shows : Text → GeoHit F → Bytes → Type 0
  Shows topic hit bytes =
      (attrs : Attrs) × (ts : ℕ) × (encode_publish mqtt topic
          (to_vec (tile_fields (TilePayload.snapshot hit.member hit.lat hit.lng attrs ts)))
        ≡ some bytes)

  -- One packet for each member, in order.
  abbrev pub AllShow : Text → List (GeoHit F) → List Bytes → Type 0
  AllShow topic [] [] = Unit
  AllShow topic (hit ∷ hits) (bytes ∷ packets) = Shows topic hit bytes × AllShow topic hits packets
  AllShow topic _ _ = ⊥

  -- The session's channel has got some packets; all else that sessions see is as it was.
  pub record Got (c : ℕ) (packets : List Bytes) (w w' : World env) : Type 0 where
    pub added : (w'.chans c).queue ≡ (w.chans c).queue ++ packets
    pub is_open : (w'.chans c).is_open ≡ (w.chans c).is_open
    pub others : (d : ℕ) → d ≢ c → w'.chans d ≡ w.chans d
    pub broker : w'.broker ≡ w.broker

  module _ (topic : Text) (id : ℕ) (s : Session) where
    -- What `send_direct` does to the channels.
    sent_queue :
        (b : Defs.Broker) (bytes : Bytes) (chans : Channels)
        → lookup id b.sessions ≡ some s
        → (chans s.outbound).is_open ≡ true
        → (((Defs.send_direct b id bytes chans) s.outbound).queue
            ≡ (chans s.outbound).queue ++ bytes ∷ [])
          × (((Defs.send_direct b id bytes chans) s.outbound).is_open ≡ true)
          × ((d : ℕ) → d ≢ s.outbound → Defs.send_direct b id bytes chans d ≡ chans d)
    unfolding Defs.send_direct Defs.send
    sent_queue b bytes chans l o =
        rw (l, o, Defs.send_direct) (ground arith, ground arith, λ d h. ground arith)

    snapshot_hit_runs :
        (hit : GeoHit F) (w : World env) (attrs : Option Attrs) (st : env.redis.State)
        (bytes : Bytes)
        → hmget_enrich env cfg hit.member w ≡ some (attrs, record w { upstream = st })
        → encode_publish mqtt topic (
            to_vec (
              tile_fields
                (TilePayload.snapshot hit.member hit.lat hit.lng (or_empty attrs) (w.clock 0))))
          ≡ some bytes
        → snapshot_hit env cfg topic id hit w
          ≡ some (
            tt,
            record w {
              upstream = st;
              clock = λ i. w.clock (suc i);
              chans = Defs.send_direct w.broker id bytes w.chans;
            },
          )
    unfolding snapshot_hit now_ms encoded send_direct
    snapshot_hit_runs hit w attrs st bytes read e = rw (read, ◌>>=◌) (rw (e, encoded) refl)

    snapshot_hit_lem :
        (hit : GeoHit F) (w : World env)
        → lookup id w.broker.sessions ≡ some s
        → (w.chans s.outbound).is_open ≡ true
        → (bytes : Bytes) × (w' : World env) × (snapshot_hit env cfg topic id hit w ≡ some (tt, w'))
          × Shows topic hit bytes
          × Got s.outbound (bytes ∷ []) w w'
    unfolding encode_publish
    snapshot_hit_lem hit w l o =
        let (attrs, st, read) =
          Keeps-value env w (hmget_enrich env cfg hit.member w)
            (hmget_enrich-IsQuiet env cfg hit.member w) in
        let (bytes, e) = enc topic (
          to_vec (
            tile_fields
              (TilePayload.snapshot hit.member hit.lat hit.lng (or_empty attrs) (w.clock 0)))) in
        let (q, still, rest) = sent_queue w.broker bytes w.chans l o in
        (
          bytes,
          record w {
            upstream = st;
            clock = λ i. w.clock (suc i);
            chans = Defs.send_direct w.broker id bytes w.chans;
          },
          snapshot_hit_runs hit w attrs st bytes read e,
          (or_empty attrs, w.clock 0, e),
          record { added = q; is_open = still ∙ sym o; others = rest; broker = refl },
        )

    hits_replayed :
        (hits : List (GeoHit F)) (w : World env)
        → lookup id w.broker.sessions ≡ some s
        → (w.chans s.outbound).is_open ≡ true
        → (packets : List Bytes) × (w' : World env) × (for_each hits
              (snapshot_hit env cfg topic id)
              w
            ≡ some (tt, w'))
          × AllShow topic hits packets
          × Got s.outbound packets w w'
    unfolding for_each
    hits_replayed [] w l o = (
      [],
      w,
      refl,
      tt,
      record {
        added = sym (append-nil (w.chans s.outbound).queue);
        is_open = refl;
        others = λ d h. refl;
        broker = refl;
      },
    )
    hits_replayed (hit ∷ hits) w l o =
        let (bytes, w1, ran, shown, got) = snapshot_hit_lem hit w l o in
        let (packets, w2, ran', shown', got') =
          hits_replayed hits w1 (ap (λ b. lookup id b.sessions) got.broker ∙ l) (got.is_open ∙ o) in
        (
          bytes ∷ packets,
          w2,
          rw (ran, for_each) ran',
          (shown, shown'),
          record {
            added =
                got'.added
                ∙ ap (λ q. q ++ packets) got.added
                ∙ append_assoc (w.chans s.outbound).queue (bytes ∷ []) packets;
            is_open = got'.is_open ∙ got.is_open;
            others = λ d h. got'.others d h ∙ got.others d h;
            broker = got'.broker ∙ got.broker;
          },
        )

  snapshot_hits_runs :
      (topic : Text) (id : ℕ) (hits : List (GeoHit F)) (w w' : World env)
      → for_each hits (snapshot_hit env cfg topic id) w ≡ some (tt, w')
      → snapshot_hits env cfg topic id (some hits) w ≡ some (true, w')
  unfolding snapshot_hits
  snapshot_hits_runs topic id hits w w' ran = rw (ran, ◌>>◌, ◌>>=◌) refl

  -- A session that has subscribed to a tile, and is still connected, is sent one `snapshot` packet
  -- for each member that the search finds in the tile's box, under the topic of the tile, in the
  -- order of the search and with the place where each was found; nothing else is sent to anyone,
  -- and no session or filter changes. This holds as long as packets can be encoded.
  pub snapshot_tile-replays :
      (set : Text) (z x y id : ℕ) (s : Session) (w w1 : World env) (hits : List (GeoHit F))
      → geosearch_box env set (box_of float (bbox_for_tile float z x y)) w ≡ some (some hits, w1)
      → lookup id w.broker.sessions ≡ some s
      → (w.chans s.outbound).is_open ≡ true
      → (packets : List Bytes) × (w' : World env) × (snapshot_tile env cfg set z x y id w
          ≡ some (true, w'))
        × AllShow (tile_topic set z x y) hits packets
        × Got s.outbound packets w w'
  unfolding snapshot_tile
  snapshot_tile-replays set z x y id s w w1 hits found l o =
      let searched =
        subst (Keeps env w) found
          (geosearch_box-IsQuiet env set (box_of float (bbox_for_tile float z x y)) w) in
      let broker : w1.broker ≡ w.broker = ap (λ v. v.broker) searched.1 in
      let chans : w1.chans ≡ w.chans = ap (λ v. v.chans) searched.1 in
      let (packets, w2, ran, shown, got) =
        hits_replayed (tile_topic set z x y) id s hits w1
          (ap (λ b. lookup id b.sessions) broker ∙ l)
          (ap (λ c. (c s.outbound).is_open) chans ∙ o) in
      (
        packets,
        w2,
        rw (found, ◌>>=◌) (snapshot_hits_runs (tile_topic set z x y) id hits w1 w2 ran),
        shown,
        record {
          added = got.added ∙ ap (λ c. (c s.outbound).queue ++ packets) chans;
          is_open = got.is_open ∙ ap (λ c. (c s.outbound).is_open) chans;
          others = λ d h. got.others d h ∙ ap (λ c. c d) chans;
          broker = got.broker ∙ broker;
        },
      )
