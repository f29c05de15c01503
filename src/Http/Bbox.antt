-- ===== src/Http/Bbox.antt =====
-- http.rs: the box of a viewport.
use geomqtt.Base.{List, [], ◌∷◌, ◌++◌, none, some, Text, String, lit, split}
use geomqtt.Base.Results.{Result, ok, err, ◌>>=◌}
use geomqtt.Float.{F64}

module _ (float : F64) where
  open float use {F, parse_f64}

  unfoldable pub parse_side : String → Text → Result Text F
  parse_side side part = elim (parse_f64 part) [
    | none ↦ err (lit "bad " ++ lit side)
    | some v ↦ ok v
  ]

  unfoldable pub parse_sides : List Text → Result Text (F × F × F × F)
  unfolding parse_side
  parse_sides (w ∷ s ∷ e ∷ n ∷ []) = do
    west ← parse_side "w" w
    south ← parse_side "s" s
    east ← parse_side "e" e
    north ← parse_side "n" n
    ok (west, south, east, north)
  parse_sides _ = err (lit "bbox must be w,s,e,n")

  -- The box of a query, or the message.
  unfoldable pub parse_bbox : Text → Result Text (F × F × F × F)
  unfolding parse_sides
  parse_bbox bbox = parse_sides (split bbox b',')
