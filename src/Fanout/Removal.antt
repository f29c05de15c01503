-- ===== src/Fanout/Removal.antt =====
-- fanout.rs: what a session receives of a removal, and what a client makes of it.
use geomqtt.Base.{
  ℕ, List, [], ◌∷◌, ◌++◌, Option, none, some, Bool, true, false, ◌≡◌, refl, ap, ◌∙◌, arith, map,
  Text, if◌then◌else◌,
}
use geomqtt.Base.Assoc.{lookup}
use geomqtt.Broker.Defs.{Session}
use geomqtt.Broker.Invariant.{IsValid}
use geomqtt.Coord.Tile.{tiles_for_point}
use geomqtt.Topic.{inset_key}
use geomqtt.Fanout.Defs.{Fanout, on_geo_remove}
use geomqtt.Fanout.Packets.{Listens}
use geomqtt.Fanout.Plan.{and_then_congr, Tile, removes, publish_event}
use geomqtt.Fanout.Received.{packets_of, told_all, events_send}
use geomqtt.Fanout.Total.{CanEncode}
use geomqtt.Fanout.View.{after, on_tiles}
use geomqtt.World.{Env, World, Action, for_each}

for_each-map :
    {W A B : Type 0} (f : A → B) (xs : List A) (body : B → Action W (Unit {0})) (w : W)
    → for_each xs (λ x. body (f x)) w ≡ for_each (map f xs) body w
unfolding for_each
for_each-map f [] body w = refl
for_each-map f (x ∷ xs) body w = and_then_congr (body (f x) w) _ _ (for_each-map f xs body)

-- Of a member that is shown on some of the tiles nothing is left once all of them are taken away.
after-removes :
    (t : Tile) (ts : List Tile) (v : Bool)
    → after t (map removes ts) v ≡ (if on_tiles t ts then false else v)
after-removes t [] v = refl
after-removes t (u ∷ ts) v = ground (arith, after-removes t ts v, after-removes t ts false)

module _ (env : Env) (enc : CanEncode env) (id : ℕ) (s : Session) where
  open env use {float, redis}
  open float use {F}

  -- After a removal, a registered and connected session has been sent a `remove` for each tile of the
  -- member's position that one of its filters matches, in the order of the zoom levels and with its
  -- reading of the clock, behind what waited on its channel, and no other packet; Redis has been
  -- told of the same events and then to delete the record of the set. A client that shows the
  -- member on those tiles shows it on none once it has taken the events. This holds in a
  -- well-formed broker, as long as packets can be encoded.
  pub on_geo_remove-packets_of :
      (fanout : Fanout) (set member : Text) (lon lat : F) (w : World env) (t : Tile) (v : Bool)
      → IsValid w.broker
      → lookup id w.broker.sessions ≡ some s
      → (w.chans s.outbound).is_open ≡ true
      → v ≡ on_tiles t (tiles_for_point float fanout.enrich_zooms lat lon)
      → (w' : World env) × (on_geo_remove env fanout set member (lon, lat) w ≡ some (tt, w'))
        × ((w'.chans s.outbound).queue
            ≡ (w.chans s.outbound).queue
              ++ packets_of env enc id s set member lat lon []
                  (map removes (tiles_for_point float fanout.enrich_zooms lat lon))
                  w.clock)
        × (w'.upstream
            ≡ (redis.srem (inset_key member) set (
                told_all env enc id s set member lat lon []
                  (map removes (tiles_for_point float fanout.enrich_zooms lat lon))
                  w.clock
                  w.upstream)).0)
        × (after t (map removes (tiles_for_point float fanout.enrich_zooms lat lon)) v ≡ false)
  unfolding on_geo_remove
  on_geo_remove-packets_of fanout set member lon lat w t v valid registered connected h =
      let tiles = tiles_for_point float fanout.enrich_zooms lat lon in
      let listens : Listens env enc id s w = record {
        valid = valid;
        registered = registered;
        connected = connected;
      } in
      let (w', ran, sent, told) =
        events_send env enc id s set member lat lon [] (map removes tiles) w listens in
      (
        record w' { upstream = (redis.srem (inset_key member) set w'.upstream).0 },
        ap
            (λ o. elim o as (λ _. Option (Unit {0} × World env)) [
              | none ↦ none
              | some (_, u) ↦
                  some
                    (tt, record u { upstream = (redis.srem (inset_key member) set u.upstream).0 })
            ])
            (for_each-map removes tiles (publish_event env set member lat lon []) w ∙ ran),
        sent.added,
        ap (λ u. (redis.srem (inset_key member) set u).0) told,
        rw (after-removes t tiles v, h) (ground arith),
      )
