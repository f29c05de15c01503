-- ===== src/Resp/Args.antt =====
-- resp.rs: the words of a command, and what `GEOADD` adds.
use geomqtt.Base.{
  ◌-◌, List, [], ◌∷◌, Option, none, some, Bool, ◌&&◌, ◌||◌, Text, lit, text_eq, leb, if◌then◌else◌,
  from_utf8_lossy, ◌>>=◌,
}
use geomqtt.Resp.Frame.{Resp2Frame, Resp2Frames, bulk_string, simple_string, array}
use geomqtt.Float.{F64}

-- `to_ascii_uppercase`
unfoldable pub to_ascii_uppercase : Text → Text
to_ascii_uppercase [] = []
to_ascii_uppercase (c ∷ s) = (if leb 97 c && leb c 122 then c - 32 else c) ∷ to_ascii_uppercase s

-- The text of a frame that is a string.
unfoldable pub string_arg : Resp2Frame → Option Text
string_arg (bulk_string b) = some (from_utf8_lossy b)
string_arg (simple_string b) = some (from_utf8_lossy b)
string_arg _ = none

-- The loop of `frame_to_args`.
unfoldable pub string_args : Resp2Frames → Option (List Text)
unfolding string_arg
string_args Resp2Frames.nil = some []
string_args (Resp2Frames.cons it items) = do
  arg ← string_arg it
  args ← string_args items
  some (arg ∷ args)

unfoldable pub frame_to_args : Resp2Frame → Option (List Text)
unfolding string_args
frame_to_args (array items) = string_args items
frame_to_args _ = none

-- `matches!(u.as_str(), "NX" | "XX" | "CH")`
unfoldable pub is_flag : Text → Bool
unfolding to_ascii_uppercase
is_flag s =
    let u = to_ascii_uppercase s in
    text_eq u (lit "NX") || text_eq u (lit "XX") || text_eq u (lit "CH")

-- The first loop: leading flags are skipped.
unfoldable pub skip_flags : List Text → List Text
unfolding is_flag
skip_flags [] = []
skip_flags (s ∷ tail) = let rest = skip_flags tail in if is_flag s then rest else s ∷ tail

module _ (float : F64) where
  open float use {F, decimal, parse_f64}

  -- `parse().unwrap_or(0.0)`
  unfoldable pub coordinate : Text → F
  coordinate s = elim (parse_f64 s) [ none ↦ decimal 0 0 | some v ↦ v ]

  -- The second loop: three words at a time, fewer than three are left.
  unfoldable pub triples : List Text → List Text × List (F × F)
  unfolding coordinate
  triples (lon ∷ lat ∷ member ∷ rest) =
      let (members, positions) = triples rest in
      (member ∷ members, (coordinate lon, coordinate lat) ∷ positions)
  triples _ = ([], [])

  unfoldable pub extract_geoadd_members : List Text → List Text × List (F × F)
  unfolding skip_flags triples
  extract_geoadd_members tail = triples (skip_flags tail)
