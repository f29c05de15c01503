-- ===== src/Coord/Cover.antt =====
-- The tiles of a box: each one between the corners, once.
use geomqtt.Base.{
  ℕ, zero, suc, ◌+◌, ◌-◌, ◌*◌, List, [], ◌∷◌, ◌++◌, Bool, ◌&&◌, ◌≡◌, arith, ltb, leb, ◌==◌,
  if◌then◌else◌, min, max,
}
use geomqtt.Float.{F64}
use geomqtt.Coord.Tile.{count_from, row, rows, corners, tiles_covering_bbox}

-- How often a number, or a tile, stands in a list.
abbrev times : ℕ → List ℕ → ℕ
times v [] = 0
times v (w ∷ ws) = (if v == w then 1 else 0) + times v ws

abbrev pub occurrences : ℕ → ℕ → List (ℕ × ℕ) → ℕ
occurrences x y [] = 0
occurrences x y ((a, b) ∷ ts) = (if x == a && y == b then 1 else 0) + occurrences x y ts

times-count_from :
    (v lo n : ℕ) → times v (count_from lo n) ≡ (if leb lo v && ltb v (lo + n) then 1 else 0)
unfolding count_from
times-count_from v lo zero = ground arith
times-count_from v lo (suc n) = ground (arith, times-count_from v (lo + 1) n)

occurrences-append :
    (x y : ℕ) (ss ts : List (ℕ × ℕ))
    → occurrences x y (ss ++ ts) ≡ occurrences x y ss + occurrences x y ts
occurrences-append x y [] ts = omega arith
occurrences-append x y ((a, b) ∷ ss) ts = omega (arith, occurrences-append x y ss ts)

occurrences-row :
    (x y b : ℕ) (xs : List ℕ) → occurrences x y (row b xs) ≡ (if y == b then times x xs else 0)
unfolding row
occurrences-row x y b [] = ground arith
occurrences-row x y b (a ∷ xs) = ground (arith, occurrences-row x y b xs)

occurrences-rows :
    (x y : ℕ) (ys xs : List ℕ) → occurrences x y (rows ys xs) ≡ times y ys * times x xs
unfolding rows
occurrences-rows x y [] xs = omega arith
occurrences-rows x y (b ∷ ys) xs = ground (
  arith,
  occurrences-append x y (row b xs) (rows ys xs),
  occurrences-row x y b xs,
  occurrences-rows x y ys xs,
)

module _ (f : F64) where
  open f use {F}

  -- Whether a tile lies between the tiles of the two corners of a box.
  abbrev pub in_box : ℕ → F → F → F → F → ℕ → ℕ → Bool
  in_box z w s e n x y =
      let c = corners f z w s e n in
      (leb (min c.0.0 c.1.0) x && leb x (max c.0.0 c.1.0))
      && (leb (min c.0.1 c.1.1) y && leb y (max c.0.1 c.1.1))

  -- A tile between the corners of a box stands in the list once, any other tile not at all,
  -- whichever way round the corners are.
  pub occurrences-tiles_covering_bbox :
      (z : ℕ) (w s e n : F) (x y : ℕ)
      → occurrences x y (tiles_covering_bbox f z w s e n) ≡ (if in_box z w s e n x y then 1 else 0)
  unfolding tiles_covering_bbox
  occurrences-tiles_covering_bbox z w s e n x y =
      let c = corners f z w s e n in
      let lo_x = min c.0.0 c.1.0 in
      let hi_x = max c.0.0 c.1.0 in
      let lo_y = min c.0.1 c.1.1 in
      let hi_y = max c.0.1 c.1.1 in
      rw
        (
          occurrences-rows x y (count_from lo_y (hi_y + 1 - lo_y))
              (count_from lo_x (hi_x + 1 - lo_x)),
          times-count_from y lo_y (hi_y + 1 - lo_y),
          times-count_from x lo_x (hi_x + 1 - lo_x),
        )
        (ground arith)
