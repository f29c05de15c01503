-- ===== src/Http/Same.antt =====
-- http.rs: a viewport that is the box of a tile shows what the tile shows.
use geomqtt.Base.{
  ℕ, [], ◌∷◌, ◌++◌, some, ◌≡◌, refl, ap, ◌∙◌, Text, Lacks, split, split-append, split-Lacks,
}
use geomqtt.Base.Results.{ok, ◌>>=◌}
use geomqtt.Config.FromEnv.{Config}
use geomqtt.Coord.Tile.{bbox_for_tile}
use geomqtt.Float.{F64}
use geomqtt.Http.Bbox.{parse_side, parse_sides, parse_bbox}
use geomqtt.Http.Document.{Document}
use geomqtt.Http.Handle.{Process, tile_geojson, viewport_answer, viewport_geojson}
use geomqtt.World.{Env, World}

-- `w,s,e,n`
abbrev pub joined : Text → Text → Text → Text → Text
joined w s e n = w ++ b',' ∷ (s ++ b',' ∷ (e ++ b',' ∷ n))

split-joined :
    (w s e n : Text)
    → Lacks b',' w
    → Lacks b',' s
    → Lacks b',' e
    → Lacks b',' n
    → split (joined w s e n) b',' ≡ w ∷ s ∷ e ∷ n ∷ []
split-joined w s e n hw hs he hn =
    rw
      (
        split-append w (s ++ b',' ∷ (e ++ b',' ∷ n)) b',' hw,
        split-append s (e ++ b',' ∷ n) b',' hs,
        split-append e n b',' he,
        split-Lacks n b',' hn,
      )
      refl

module _ (float : F64) where
  open float use {F, parse_f64}

  parse_sides-four :
      (w s e n : Text) (west south east north : F)
      → parse_f64 w ≡ some west
      → parse_f64 s ≡ some south
      → parse_f64 e ≡ some east
      → parse_f64 n ≡ some north
      → parse_sides float (w ∷ s ∷ e ∷ n ∷ []) ≡ ok (west, south, east, north)
  unfolding parse_sides parse_side
  parse_sides-four w s e n west south east north pw ps pe pn = rw (pw, ps, pe, pn, ◌>>=◌) refl

module _ (env : Env) {SocketAddr : Type 0} (cfg : Config SocketAddr)
    (to_string : Document (F64.F (Env.float env)) → Text) (reason : Text)
    (process : Process (Env.float env)) where
  open env use {float}
  open float use {parse_f64}

  -- A viewport whose box is written with the four sides of a tile gets the response that the tile
  -- gets, and leaves the same state; each side is a text that holds no comma and is read as the
  -- number of the tile.
  pub viewport_geojson-tile_geojson :
      (set : Text) (z x y : ℕ) (w s e n : Text) (world : World env)
      → Lacks b',' w
      → Lacks b',' s
      → Lacks b',' e
      → Lacks b',' n
      → parse_f64 w ≡ some (bbox_for_tile float z x y).0
      → parse_f64 s ≡ some (bbox_for_tile float z x y).1
      → parse_f64 e ≡ some (bbox_for_tile float z x y).2
      → parse_f64 n ≡ some (bbox_for_tile float z x y).3
      → viewport_geojson env cfg to_string reason process set (joined w s e n) world
        ≡ tile_geojson env cfg to_string reason process set z x y world
  unfolding viewport_geojson viewport_answer tile_geojson parse_bbox
  viewport_geojson-tile_geojson set z x y w s e n world hw hs he hn pw ps pe pn =
      ap (λ box. viewport_answer env cfg to_string reason process set box world)
        (ap (parse_sides float) (split-joined w s e n hw hs he hn)
          ∙ parse_sides-four float w s e n _ _ _ _ pw ps pe pn)
