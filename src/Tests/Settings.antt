-- ===== src/Tests/Settings.antt =====
-- Settings at concrete texts.
use geomqtt.Base.{[], ◌∷◌, ◌≡◌, refl, ◌*◌, ◌^◌, ◌≤◌, lit, any, split, trim, split_once, parse_uint}
use geomqtt.Base.Results.{ok}
use geomqtt.Config.TileSize.{
  parse_tile_size, check_tile_size, is_power_of_two, zoom_offset_for_tile_size,
}
use geomqtt.Config.Zooms.{
  parse_zoom_list, read_tokens, read_token, dedup, sort_unstable, up_from, tokens,
}
use geomqtt.Config.Coverage.{contains, covers, contains-parse_zoom_list}
use geomqtt.Config.Offset.{parse_tile_size_sound}

three_and_six : parse_zoom_list (lit "6, 3-4,4") ≡ ok (3 ∷ 4 ∷ 6 ∷ [])
unfolding parse_zoom_list read_tokens tokens split trim read_token split_once parse_uint dedup
    sort_unstable up_from
three_and_six = refl

contains-parse_zoom_list_example :
    contains 4 (3 ∷ 4 ∷ 6 ∷ []) ≡ any (covers 4) (tokens (lit "6, 3-4,4"))
contains-parse_zoom_list_example =
    contains-parse_zoom_list (lit "6, 3-4,4") (3 ∷ 4 ∷ 6 ∷ []) 4 three_and_six

size_64 : parse_tile_size (lit " 64") ≡ ok 64
unfolding parse_tile_size parse_uint trim check_tile_size is_power_of_two
size_64 = refl

parse_tile_size_sound_example :
    (1 ≤ 64)
    × (64 ≤ 256)
    × (zoom_offset_for_tile_size 64 ≤ 8)
    × (2 ^ zoom_offset_for_tile_size 64 * 64 ≡ 256)
parse_tile_size_sound_example = parse_tile_size_sound (lit " 64") 64 size_64
