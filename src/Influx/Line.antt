-- ===== src/Influx/Line.antt =====
-- influx.rs: escaping, percent encoding and the lines of the two measurements.
use geomqtt.Base.{
  ℕ, ◌+◌, ◌-◌, ◌/◌, ◌%◌, [], ◌∷◌, ◌++◌, Option, none, some, Bool, ◌&&◌, ◌||◌, Text, Bytes, lit, ltb,
  leb, ◌==◌, if◌then◌else◌,
}

unfoldable pub is_tag_special : ℕ → Bool
is_tag_special c = c == b',' || c == b'=' || c == b' '

-- What is appended to `out`; the characters that are tested for are ASCII, so bytes will do.
unfoldable pub escape_tag : Text → Text
unfolding is_tag_special
escape_tag [] = []
escape_tag (c ∷ s) =
    let rest = escape_tag s in if is_tag_special c then b'\\' ∷ c ∷ rest else c ∷ rest

unfoldable pub escape_field_key : Text → Text
unfolding escape_tag
escape_field_key s = escape_tag s

unfoldable pub is_string_special : ℕ → Bool
is_string_special c = c == b'"' || c == b'\\'

unfoldable pub escape_string : Text → Text
unfolding is_string_special
escape_string [] = []
escape_string (c ∷ s) =
    let rest = escape_string s in if is_string_special c then b'\\' ∷ c ∷ rest else c ∷ rest

unfoldable pub push_string_field : Text → Text
unfolding escape_string
push_string_field s = b'"' ∷ (escape_string s ++ b'"' ∷ [])

unfoldable pub is_unreserved : ℕ → Bool
is_unreserved b =
    (leb b'A' b && leb b b'Z')
    || (leb b'a' b && leb b b'z')
    || (leb b'0' b && leb b b'9')
    || b == b'-'
    || b == b'_'
    || b == b'.'
    || b == b'~'

-- `{:X}`
unfoldable pub upper_hex_digit : ℕ → ℕ
upper_hex_digit d = if ltb d 10 then b'0' + d else b'A' + d - 10

unfoldable pub urlencode : Bytes → Text
unfolding is_unreserved upper_hex_digit
urlencode [] = []
urlencode (b ∷ s) =
    let rest = urlencode s in
    if is_unreserved b
    then b ∷ rest
    else b'%' ∷ upper_hex_digit (b / 16) ∷ upper_hex_digit (b % 16) ∷ rest

-- `push_float`, where `shown` is the print of a finite float.
unfoldable pub push_float : Option Text → Text
push_float none = lit "0"
push_float (some shown) = shown

unfoldable pub position_line : Text → Text → Option Text → Option Text → Text
position_line set member lon lat =
    lit "geomqtt_position,set="
    ++ (escape_tag set
        ++ (lit ",obid="
            ++ (escape_tag member
                ++ (lit " lat=" ++ (push_float lat ++ (lit ",lon=" ++ push_float lon))))))
