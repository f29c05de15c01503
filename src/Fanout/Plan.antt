-- ===== src/Fanout/Plan.antt =====
-- A write of a position, as a plan: which events go to which tiles, and in which order.
use geomqtt.Base.{
  ℕ, List, [], ◌∷◌, ◌++◌, Option, none, some, Bool, true, false, ◌&&◌, ◌≡◌, refl, sym, ap, Text,
  ◌==◌, if◌then◌else◌,
}
use mathlib.Core.Path.{fun_ext}
use geomqtt.Payload.Attrs.{Attrs}
use geomqtt.Topic.{inset_key}
use geomqtt.Coord.Tile.{tiles_for_point}
use geomqtt.World.{Env, World, Action, M, ◌>>◌, pure, for_each, upstream}
use geomqtt.Fanout.Defs.{
  Fanout, influx_position, tile_at, publish_add, publish_move, publish_remove, write_tile, tiles_of,
  on_geo_write,
}

abbrev pub Tile : Type 0
Tile = ℕ × ℕ × ℕ

pub data Event : Type 0 where
  adds moves removes : Tile → Event

-- A tile that the member has not been on at this zoom level gets an `add`, after a `remove` for the
-- tile that it was on; the same tile gets a `move`.
abbrev pub plan_tile : List Tile → Tile → List Event
plan_tile old_tiles (z, nx, ny) = elim (tile_at z old_tiles) [
  | none ↦ adds (z, nx, ny) ∷ []
  | some (ox, oy) ↦
      if ox == nx && oy == ny
      then moves (z, nx, ny) ∷ []
      else removes (z, ox, oy) ∷ adds (z, nx, ny) ∷ []
]

abbrev pub plan : List Tile → List Tile → List Event
plan old_tiles [] = []
plan old_tiles (t ∷ ts) = plan_tile old_tiles t ++ plan old_tiles ts

abbrev pub and_then :
    {W : Type 0} → Option (Unit {0} × W) → (W → Option (Unit {0} × W)) → Option (Unit {0} × W)
and_then r k = elim r [ none ↦ none | some (_, w) ↦ k w ]

and_then_assoc :
    {W : Type 0} (r : Option (Unit {0} × W)) (f g h : W → Option (Unit {0} × W))
    → ((w : W) → f w ≡ and_then (g w) h)
    → and_then r f ≡ and_then (and_then r g) h
and_then_assoc none f g h e = refl
and_then_assoc (some (_, w)) f g h e = e w

and_then_done : {W : Type 0} (r : Option (Unit {0} × W)) → and_then r (λ w. some (tt, w)) ≡ r
and_then_done none = refl
and_then_done (some (_, w)) = refl

pub and_then_congr :
    {W : Type 0} (r : Option (Unit {0} × W)) (f g : W → Option (Unit {0} × W))
    → ((w : W) → f w ≡ g w)
    → and_then r f ≡ and_then r g
and_then_congr none f g e = refl
and_then_congr (some (_, w)) f g e = e w

for_each-cons :
    {W A : Type 0} (x : A) (xs : List A) (body : A → Action W (Unit {0})) (w : W)
    → for_each (x ∷ xs) body w ≡ and_then (body x w) (for_each xs body)
unfolding for_each
for_each-cons x xs body w = refl

for_each-append :
    {W A : Type 0} (xs ys : List A) (body : A → Action W (Unit {0})) (w : W)
    → for_each (xs ++ ys) body w ≡ and_then (for_each xs body w) (for_each ys body)
unfolding for_each
for_each-append [] ys body w = refl
for_each-append (x ∷ xs) ys body w =
    and_then_assoc (body x w) _ (for_each xs body) (for_each ys body) (for_each-append xs ys body)

module _ (env : Env) where
  open env use {float, redis}
  open float use {F}

  abbrev pub publish_event : Text → Text → F → F → Attrs → Event → M env (Unit {0})
  publish_event set member lat lng attrs (adds t) = publish_add env set member lat lng attrs t
  publish_event set member lat lng attrs (moves t) = publish_move env set member lat lng t
  publish_event set member lat lng attrs (removes t) = publish_remove env set member t

  module _ (set member : Text) (lat lng : F) (attrs : Attrs) where
    abbrev emit : Event → M env (Unit {0})
    emit = publish_event set member lat lng attrs

    moved :
        (b : Bool) (old new : Tile) (w : World env)
        → (if b then publish_move env set member lat lng new else (do
          publish_remove env set member old
          publish_add env set member lat lng attrs new))
            w
          ≡ for_each (if b then moves new ∷ [] else removes old ∷ adds new ∷ []) emit w
    unfolding for_each
    moved true old new w = sym (and_then_done _)
    moved false old new w =
        and_then_congr (publish_remove env set member old w) _ _ (λ w'. sym (and_then_done _))

    placed :
        (o : Option (ℕ × ℕ)) (z nx ny : ℕ) (w : World env)
        → (elim o as (λ _. M env (Unit {0})) [
          | none ↦ publish_add env set member lat lng attrs (z, nx, ny)
          | some (ox, oy) ↦
              if ox == nx && oy == ny then publish_move env set member lat lng (z, nx, ny) else (do
                publish_remove env set member (z, ox, oy)
                publish_add env set member lat lng attrs (z, nx, ny))
        ])
            w
          ≡ for_each
              (elim o [
                | none ↦ adds (z, nx, ny) ∷ []
                | some (ox, oy) ↦
                    if ox == nx && oy == ny
                    then moves (z, nx, ny) ∷ []
                    else removes (z, ox, oy) ∷ adds (z, nx, ny) ∷ []
              ])
              emit
              w
    placed none z nx ny w = unfold for_each in sym (and_then_done _)
    placed (some (ox, oy)) z nx ny w = moved (ox == nx && oy == ny) (z, ox, oy) (z, nx, ny) w

    write_tile-plan_tile :
        (old_tiles : List Tile) (t : Tile) (w : World env)
        → write_tile env set member lat lng attrs old_tiles t w
          ≡ for_each (plan_tile old_tiles t) emit w
    unfolding write_tile
    write_tile-plan_tile old_tiles (z, nx, ny) w = placed (tile_at z old_tiles) z nx ny w

    for_each-plan :
        (old_tiles ts : List Tile) (w : World env)
        → for_each ts (write_tile env set member lat lng attrs old_tiles) w
          ≡ for_each (plan old_tiles ts) emit w
    for_each-plan old_tiles [] w = unfold for_each in refl
    for_each-plan old_tiles (t ∷ ts) w =
        rw
          (
            for_each-append (plan_tile old_tiles t) (plan old_tiles ts) emit w,
            for_each-cons t ts (write_tile env set member lat lng attrs old_tiles) w,
            write_tile-plan_tile old_tiles t w,
          )
          (and_then_congr (for_each (plan_tile old_tiles t) emit w) _ _
            (for_each-plan old_tiles ts))

  -- A write is: the sink is told, then what is planned is published, and then the set is recorded.
  pub on_geo_write-plan :
      (fanout : Fanout) (set member : Text) (old_pos : Option (F × F)) (lon lat : F) (attrs : Attrs)
      (w : World env)
      → on_geo_write env fanout set member old_pos (lon, lat) attrs w
        ≡ (do
          influx_position env fanout.with_influx set member lon lat
          for_each
              (plan
                (tiles_of env fanout.enrich_zooms old_pos)
                (tiles_for_point float fanout.enrich_zooms lat lon))
              (publish_event set member lat lon attrs)
          upstream env (redis.sadd (inset_key member) set)
          pure tt)
            w
  unfolding on_geo_write
  on_geo_write-plan fanout set member old_pos lon lat attrs w =
      let planned = fun_ext (
        for_each-plan set member lat lon attrs (tiles_of env fanout.enrich_zooms old_pos)
          (tiles_for_point float fanout.enrich_zooms lat lon)) in
      ap
        (λ loop.
          (do
            influx_position env fanout.with_influx set member lon lat
            loop
            upstream env (redis.sadd (inset_key member) set)
            pure tt)
            w)
        planned
