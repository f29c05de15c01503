-- ===== src/Tests/Lines.antt =====
-- The line protocol, payloads and coordinates at concrete values.
use geomqtt.Influx.Bounded.{Sink, sends, takes, turns, IsBounded, turns-IsBounded}
use geomqtt.Metrics
use geomqtt.Base.{ℕ, [], ◌∷◌, ◌++◌, none, some, true, ◌≡◌, refl, lit, arith, if◌then◌else◌}
use geomqtt.Payload.Attrs.{Value}
use geomqtt.Payload.Defs.{TilePayload, tile_fields}
use geomqtt.Payload.Shape.{read_tile, read_tile-tile_fields}
use geomqtt.Influx.Line.{is_tag_special, escape_tag, push_float, position_line}
use geomqtt.Influx.Escape.{read_tag, ends_in_backslash, read_tag-escape_tag_backslash}
use geomqtt.Influx.Fields.{read_position, read_position-position_line}
use geomqtt.Coord.Tile.{tiles_for_point, tiles_covering_bbox}
use geomqtt.Coord.Bounds.{IsTile, tiles_for_point-IsTile}
use geomqtt.Coord.Cover.{occurrences, in_box, occurrences-tiles_covering_bbox}
use geomqtt.Base.{All}
use geomqtt.Config.FromEnv.{InfluxSettings}
use geomqtt.Influx.Posts.{Post, recording, lines_in, IsPost, successes, failures, writer_task-posts}
use geomqtt.Influx.Writer.{Input, received, elapsed, all_lines, writer_task}
use geomqtt.Metrics.{Metrics}
use geomqtt.Base.{Bool, false, ◌+◌, ◌%◌, ◌^◌, map, length, ◌==◌}
use geomqtt.Base.{List}
use geomqtt.Tests.Toy.{whole, whole-laws}

read_position-position_line_example :
    read_position
      (position_line (lit "a,b") (lit "x y") none (some (lit "1.5")) ++ b'\n' ∷ lit "m f=1")
    ≡ some (
      lit "a,b",
      lit "x y",
      lit "lat=" ++ (push_float (some (lit "1.5")) ++ (lit ",lon=" ++ push_float none)),
    )
unfolding ends_in_backslash push_float
read_position-position_line_example =
    read_position-position_line (lit "a,b") (lit "x y") none (some (lit "1.5")) (lit "m f=1") refl
      refl (ground arith) (ground arith) (ground arith) (ground arith)

read_tag-escape_tag_backslash_example :
    read_tag (escape_tag (lit "a" ++ b'\\' ∷ []) ++ b',' ∷ lit "obid=x y")
    ≡ (lit "a" ++ b',' ∷ (read_tag (lit "obid=x y")).0, (read_tag (lit "obid=x y")).1)
unfolding is_tag_special
read_tag-escape_tag_backslash_example =
    read_tag-escape_tag_backslash (lit "a") (lit "obid=x y") b',' refl

read_tile-tile_fields_example :
    read_tile ℕ (tile_fields (TilePayload.add (lit "v1") 45 9 ((lit "k", Value.null) ∷ []) 7))
    ≡ some (TilePayload.add (lit "v1") 45 9 ((lit "k", Value.null) ∷ []) 7)
read_tile-tile_fields_example =
    read_tile-tile_fields ℕ (TilePayload.add (lit "v1") 45 9 ((lit "k", Value.null) ∷ []) 7)

tiles_for_point-IsTile_example :
    All (IsTile whole whole-laws) (tiles_for_point whole (1 ∷ 12 ∷ []) 45 200)
tiles_for_point-IsTile_example =
    tiles_for_point-IsTile whole whole-laws (1 ∷ 12 ∷ []) 45 200 (omega arith, (omega arith, tt))

occurrences-tiles_covering_bbox_example :
    occurrences 1 0 (tiles_covering_bbox whole 2 0 10 300 60)
    ≡ (if in_box whole 2 0 10 300 60 1 0 then 1 else 0)
occurrences-tiles_covering_bbox_example = occurrences-tiles_covering_bbox whole 2 0 10 300 60 1 0

abbrev inputs : List Input
inputs = elapsed ∷ received (lit "a") ∷ received (lit "b") ∷ elapsed ∷ received (lit "c") ∷ []

abbrev place : InfluxSettings
place = record {
  url = lit "http://influx:8086";
  token = lit "secret";
  org = lit "o";
  bucket = lit "b";
}

-- The first post succeeds, and no other.
abbrev first_only : List Post → Bool
first_only log = length log == 1

writer_task-posts_example :
    (log : List Post) × (m' : Metrics) × (writer_task true
        (recording first_only)
        place
        inputs
        []
        Metrics.new
      ≡ (log, m'))
    × (all_lines (map lines_in log) ≡ lit "a" ∷ lit "b" ∷ lit "c" ∷ [])
    × All (IsPost place) log
    × (m'.influx_batches_sent ≡ (0 + successes first_only [] log) % 2 ^ 64)
    × (m'.influx_batch_errors ≡ (0 + failures first_only [] log) % 2 ^ 64)
    × (writer_task false (recording first_only) place inputs [] Metrics.new ≡ ([], Metrics.new))
writer_task-posts_example =
    writer_task-posts first_only place inputs Metrics.new (ground arith) (omega arith) (omega arith)

abbrev sink : Sink
sink = record { queue = record { lines = []; is_open = true }; metrics = Metrics.new; taken = [] }

turns-IsBounded_example :
    IsBounded (lit "a" ∷ lit "b" ∷ []) (turns (sends (lit "a") ∷ takes ∷ sends (lit "b") ∷ []) sink)
turns-IsBounded_example =
    turns-IsBounded (sends (lit "a") ∷ takes ∷ sends (lit "b") ∷ []) sink refl refl refl refl
