-- ===== src/Config/TileSize.antt =====
-- config.rs: the size of a tile, and the zoom levels that it adds.
use geomqtt.Base.{
  ℕ, zero, suc, ◌+◌, ◌/◌, ◌%◌, Bool, not, ◌||◌, none, some, Text, trim, parse_uint, u16_max, ltb,
  ◌==◌, if◌then◌else◌,
}
use geomqtt.Base.Results.{Result, ok, err}
use geomqtt.Config.Error.{ConfigError, not_a_number, bad_tile_size}

-- `u16::count_ones`
unfoldable pub count_ones : ℕ → ℕ → ℕ
count_ones zero v = 0
count_ones (suc bits) v = v % 2 + count_ones bits (v / 2)

unfoldable pub is_power_of_two : ℕ → Bool
unfolding count_ones
is_power_of_two v = count_ones 16 v == 1

unfoldable pub check_tile_size : ℕ → Result ConfigError ℕ
check_tile_size v =
    if v == 0 || ltb 256 v || not (is_power_of_two v) then err (bad_tile_size v) else ok v

unfoldable pub parse_tile_size : Text → Result ConfigError ℕ
parse_tile_size s = elim (parse_uint u16_max (trim s)) [
  | none ↦ err (not_a_number s)
  | some v ↦ check_tile_size v
]

-- `u16::trailing_zeros`
unfoldable pub trailing_zeros : ℕ → ℕ → ℕ
trailing_zeros zero v = 0
trailing_zeros (suc bits) v =
    let more = trailing_zeros bits (v / 2) in if v % 2 == 1 then 0 else suc more

unfoldable pub zoom_offset_for_tile_size : ℕ → ℕ
unfolding trailing_zeros
zoom_offset_for_tile_size tile_size = trailing_zeros 16 (256 / tile_size)
