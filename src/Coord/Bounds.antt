-- ===== src/Coord/Bounds.antt =====
-- A tile that is computed is one of the tiles of its zoom level.
use geomqtt.Base.{ℕ, ◌-◌, ◌^◌, ◌≤◌, List, [], ◌∷◌, arith, inl, inr, All}
use geomqtt.Float.{F64, F64Laws}
use geomqtt.Coord.Tile.{tile_for_coord, tiles_for_point}

module _ (f : F64) (laws : F64Laws f) where
  open f use {F, decimal, powi2, sub, clamp, as_u32}

  clamped-le :
      (x : F) (z : ℕ)
      → z ≤ 32
      → as_u32 (clamp x (decimal 0 0) (sub (powi2 z) (decimal 1 0))) ≤ 2 ^ z - 1
  clamped-le x z h = elim (laws.clamp_range x _ _ (laws.zero-le-powi2 z)) [
    | inl nan ↦ omega (arith, laws.as_u32_nan _ nan)
    | inr (_, below) ↦ omega (arith, laws.as_u32_mono _ _ below, laws.as_u32-powi2 z h)
  ]

  -- At a zoom level up to 32 the column and the row of every point, whatever its coordinates, lie
  -- below the number of tiles on a side.
  tile_for_coord-lt :
      (z : ℕ) (lat lon : F)
      → z ≤ 32
      → ((tile_for_coord f z lat lon).0 ≤ 2 ^ z - 1) × ((tile_for_coord f z lat lon).1 ≤ 2 ^ z - 1)
  unfolding tile_for_coord
  tile_for_coord-lt z lat lon h = (clamped-le _ z h, clamped-le _ z h)

  abbrev pub IsTile : ℕ × ℕ × ℕ → Type 0
  IsTile (z, x, y) = (x ≤ 2 ^ z - 1) × (y ≤ 2 ^ z - 1)

  -- At zoom levels up to 32 each tile that a point is given, whatever its coordinates, is one of the
  -- tiles of its level.
  pub tiles_for_point-IsTile :
      (zooms : List ℕ) (lat lon : F)
      → All (λ z. z ≤ 32) zooms
      → All IsTile (tiles_for_point f zooms lat lon)
  unfolding tiles_for_point
  tiles_for_point-IsTile [] lat lon h = tt
  tiles_for_point-IsTile (z ∷ zooms) lat lon (hz, hs) =
      (tile_for_coord-lt z lat lon hz, tiles_for_point-IsTile zooms lat lon hs)
