-- ===== src/Fanout/View.antt =====
-- What a client makes of the events: the tiles on which it shows the member.
use geomqtt.Base.{
  ℕ, List, [], ◌∷◌, ◌++◌, Option, none, some, Bool, true, false, ◌&&◌, ◌≡◌, ◌⊎◌, refl, sym, ap, ◌∙◌,
  arith, ◌==◌, any, map, if◌then◌else◌, Bool-cases, ==_refl, inl, inr,
}
use geomqtt.Coord.Tile.{tile_for_coord, tiles_for_point}
use geomqtt.World.{Env}
use geomqtt.Fanout.Defs.{tile_at, tiles_of}
use geomqtt.Fanout.Plan.{Tile, Event, adds, moves, removes, plan_tile, plan}

abbrev pub tile_eq : Tile → Tile → Bool
tile_eq (z, x, y) (z', x', y') = z == z' && x == x' && y == y'

abbrev pub on_tiles : Tile → List Tile → Bool
on_tiles t = any (tile_eq t)

-- Whether the client shows the member on tile `t` after an event, after some events: an `add` and
-- a `move` put it there, a `remove` takes it away (PROTOCOL.md, section 4.1).
abbrev pub after_event : Tile → Event → Bool → Bool
after_event t (adds u) v = if tile_eq t u then true else v
after_event t (moves u) v = if tile_eq t u then true else v
after_event t (removes u) v = if tile_eq t u then false else v

abbrev pub after : Tile → List Event → Bool → Bool
after t [] v = v
after t (e ∷ es) v = after t es (after_event t e v)

after-append :
    (t : Tile) (es fs : List Event) (v : Bool) → after t (es ++ fs) v ≡ after t fs (after t es v)
after-append t [] fs v = refl
after-append t (e ∷ es) fs v = after-append t es fs (after_event t e v)

abbrev contains : ℕ → List ℕ → Bool
contains z = any (λ w. z == w)

-- Tiles that are computed from the zoom level.
abbrev tiles : (ℕ → ℕ × ℕ) → List ℕ → List Tile
tiles g zs = map (λ z. ((z, (g z).0, (g z).1))) zs

abbrev is_at : (ℕ → ℕ × ℕ) → Tile → Bool
is_at g (z, x, y) = x == (g z).0 && y == (g z).1

on_tiles-tiles :
    (g : ℕ → ℕ × ℕ) (zs : List ℕ) (t : Tile)
    → on_tiles t (tiles g zs) ≡ contains t.0 zs && is_at g t
on_tiles-tiles g [] t = refl
on_tiles-tiles g (w ∷ zs) (z, x, y) = ground (arith, on_tiles-tiles g zs (z, x, y))

tile_at-tiles :
    (h : ℕ → ℕ × ℕ) (zs : List ℕ) (z : ℕ)
    → tile_at z (tiles h zs) ≡ (if contains z zs then some (h z) else none)
unfolding tile_at
tile_at-tiles h [] z = refl
tile_at-tiles h (w ∷ zs) z = elim (Bool-cases (z == w)) [
  | inl e ↦ let same : z ≡ w = ground arith in rw same (ground arith)
  | inr e ↦ ground (arith, tile_at-tiles h zs z)
]

abbrev went : Option (ℕ × ℕ) → Tile → List Event
went o (z, gx, gy) = elim o [
  | none ↦ adds (z, gx, gy) ∷ []
  | some (hx, hy) ↦
      if hx == gx && hy == gy
      then moves (z, gx, gy) ∷ []
      else removes (z, hx, hy) ∷ adds (z, gx, gy) ∷ []
]

-- At the zoom level of the tile that is looked at, where the member was on a tile or on none.
went_here :
    (o : Option (ℕ × ℕ)) (z gx gy x y : ℕ) (v : Bool)
    → (v ≡ elim o [ none ↦ false | some (hx, hy) ↦ x == hx && y == hy ])
      ⊎ (v ≡ (x == gx && y == gy))
    → after (z, x, y) (went o (z, gx, gy)) v ≡ x == gx && y == gy
went_here none z gx gy x y v k = ground arith
went_here (some (hx, hy)) z gx gy x y v k = ground arith

-- At any other zoom level.
went_elsewhere :
    (o : Option (ℕ × ℕ)) (z gx gy z0 x y : ℕ) (v : Bool)
    → (z0 == z) ≡ false
    → after (z0, x, y) (went o (z, gx, gy)) v ≡ v
went_elsewhere none z gx gy z0 x y v k = ground arith
went_elsewhere (some (hx, hy)) z gx gy z0 x y v k = ground arith

abbrev was_at : Tile → Option (ℕ × ℕ) → Bool
was_at (z, x, y) o = elim o [ none ↦ false | some (hx, hy) ↦ x == hx && y == hy ]

module _ (g : ℕ → ℕ × ℕ) (olds : List Tile) (t : Tile) where
  abbrev was : Bool
  was = was_at t (tile_at t.0 olds)

  after-plan_tile :
      (z : ℕ) (v : Bool)
      → (v ≡ was) ⊎ (v ≡ is_at g t)
      → after t (plan_tile olds (z, (g z).0, (g z).1)) v ≡ (if t.0 == z then is_at g t else v)
  after-plan_tile z v k = elim (Bool-cases (t.0 == z)) [
    | inl e ↦
        let same : z ≡ t.0 = ground arith in
        rw (same, ==_refl) (went_here (tile_at t.0 olds) t.0 (g t.0).0 (g t.0).1 t.1 t.2 v k)
    | inr e ↦ rw e (went_elsewhere (tile_at z olds) z (g z).0 (g z).1 t.0 t.1 t.2 v e)
  ]

  after-plan :
      (zs : List ℕ) (v : Bool)
      → (v ≡ was) ⊎ (v ≡ is_at g t)
      → after t (plan olds (tiles g zs)) v ≡ (if contains t.0 zs then is_at g t else v)
  after-plan [] v k = refl
  after-plan (z ∷ zs) v k =
      rw
        (
          after-append t (plan_tile olds (z, (g z).0, (g z).1)) (plan olds (tiles g zs)) v,
          after-plan_tile z v k,
        )
        (ground (arith, after-plan zs (is_at g t) (inr refl), after-plan zs v k))

was-tiles :
    (g h : ℕ → ℕ × ℕ) (zs : List ℕ) (t : Tile) → was g (tiles h zs) t ≡ on_tiles t (tiles h zs)
was-tiles g h zs t =
    ap (was_at t) (tile_at-tiles h zs t.0) ∙ rw (on_tiles-tiles h zs t) (ground arith)

module _ (env : Env) where
  open env use {float}
  open float use {F}

  -- A client that shows a member on the tiles of its old position, or nowhere if it had none,
  -- shows it on the tiles of its new position, and on no other tile, once it has taken the events
  -- of a write in order.
  pub after-geo_write :
      (zooms : List ℕ) (old_pos : Option (F × F)) (lon lat : F) (t : Tile) (v : Bool)
      → v ≡ on_tiles t (tiles_of env zooms old_pos)
      → after t (plan (tiles_of env zooms old_pos) (tiles_for_point float zooms lat lon)) v
        ≡ on_tiles t (tiles_for_point float zooms lat lon)
  unfolding tiles_of tiles_for_point tile_at
  after-geo_write zooms none lon lat t v h =
      let g : ℕ → ℕ × ℕ = λ z. tile_for_coord float z lat lon in
      rw (after-plan g [] t zooms v (inl h), on_tiles-tiles g zooms t) (ground arith)
  after-geo_write zooms (some (old_lon, old_lat)) lon lat t v h =
      let g : ℕ → ℕ × ℕ = λ z. tile_for_coord float z lat lon in
      let k : ℕ → ℕ × ℕ = λ z. tile_for_coord float z old_lat old_lon in
      rw
        (
          after-plan g (tiles k zooms) t zooms v (inl (h ∙ sym (was-tiles g k zooms t))),
          on_tiles-tiles g zooms t,
          h,
          on_tiles-tiles k zooms t,
        )
        (ground arith)
