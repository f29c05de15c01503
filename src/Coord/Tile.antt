-- ===== src/Coord/Tile.antt =====
-- coord.rs: which tile holds a point, and what a tile and a box cover.
use geomqtt.Base.{ℕ, suc, zero, ◌+◌, ◌-◌, ◌%◌, ◌^◌, List, [], ◌∷◌, ◌++◌, map, min, max}
use geomqtt.Float.{F64}

abbrev pub u32_mod : ℕ
u32_mod = 2 ^ 32

-- `lo..=hi`, as the number of its values
unfoldable pub count_from : ℕ → ℕ → List ℕ
count_from lo zero = []
count_from lo (suc n) = lo ∷ count_from (lo + 1) n

unfoldable pub row : ℕ → List ℕ → List (ℕ × ℕ)
row y [] = []
row y (x ∷ xs) = (x, y) ∷ row y xs

unfoldable pub rows : List ℕ → List ℕ → List (ℕ × ℕ)
rows [] xs = []
rows (y ∷ ys) xs = row y xs ++ rows ys xs

module _ (f : F64) where
  open f use {
    F, decimal, of_u32, powi2, add, sub, mul, div, neg, floor, clamp, as_u32, pi, to_radians,
    to_degrees, cos, tan, atan, sinh, ln,
  }

  -- The column and the row of the tile at zoom `z`.
  unfoldable pub tile_for_coord : ℕ → F → F → ℕ × ℕ
  tile_for_coord z lat lon =
      let n = powi2 z in
      let zero_f = decimal 0 0 in
      let one = decimal 1 0 in
      let x = as_u32 (
        clamp (floor (mul (div (add lon (decimal 180 0)) (decimal 360 0)) n)) zero_f (sub n one)) in
      let lat_rad = to_radians (clamp lat (neg (decimal 8505112878 8)) (decimal 8505112878 8)) in
      let y = as_u32 (
        clamp
          (floor (
            mul
              (div (sub one (div (ln (add (tan lat_rad) (div one (cos lat_rad)))) pi))
                (decimal 2 0))
              n))
          zero_f (sub n one)) in
      (x, y)

  edge_lon : ℕ → ℕ → F
  edge_lon z x = sub (mul (div (of_u32 x) (powi2 z)) (decimal 360 0)) (decimal 180 0)

  edge_lat : ℕ → ℕ → F
  edge_lat z y =
      to_degrees
        (atan (sinh (mul pi (sub (decimal 1 0) (div (mul (decimal 2 0) (of_u32 y)) (powi2 z))))))

  -- West, south, east and north. `x + 1` and `y + 1` wrap around in the release build.
  unfoldable pub bbox_for_tile : ℕ → ℕ → ℕ → F × F × F × F
  unfolding edge_lon edge_lat
  bbox_for_tile z x y =
      (edge_lon z x, edge_lat z ((y + 1) % u32_mod), edge_lon z ((x + 1) % u32_mod), edge_lat z y)

  unfoldable pub tiles_for_point : List ℕ → F → F → List (ℕ × ℕ × ℕ)
  tiles_for_point zooms lat lon =
      map (λ z. ((z, (tile_for_coord z lat lon).0, (tile_for_coord z lat lon).1))) zooms

  -- The two corners, nudged inward by a fraction of a tile.
  unfoldable pub corners : ℕ → F → F → F → F → (ℕ × ℕ) × (ℕ × ℕ)
  corners z w s e n =
      let tile_span = div (decimal 360 0) (powi2 z) in
      let eps = mul tile_span (decimal 1 9) in
      (tile_for_coord z (sub n eps) (add w eps), tile_for_coord z (add s eps) (sub e eps))

  unfoldable pub tiles_covering_bbox : ℕ → F → F → F → F → List (ℕ × ℕ)
  tiles_covering_bbox z w s e n =
      let c = corners z w s e n in
      let x_min = min c.0.0 c.1.0 in
      let x_max = max c.0.0 c.1.0 in
      let y_min = min c.0.1 c.1.1 in
      let y_max = max c.0.1 c.1.1 in
      rows (count_from y_min (y_max + 1 - y_min)) (count_from x_min (x_max + 1 - x_min))
