-- ===== src/Influx/Fields.antt =====
-- The position line, the quoted strings and the percent encoding, as the database reads them back.
use geomqtt.Base.{
  ℕ, ◌+◌, ◌-◌, ◌*◌, ◌/◌, ◌%◌, ◌<◌, [], ◌∷◌, ◌++◌, Option, none, some, true, false, ◌&&◌, ◌≡◌, refl,
  arith, Text, Bytes, lit, leb, ◌==◌, if◌then◌else◌, Bool-cases, inl, inr, ◌>>=◌, All, strip_prefix,
  append_assoc, Lacks,
}
use geomqtt.Influx.Line.{
  is_tag_special, escape_tag, is_string_special, escape_string, push_string_field, is_unreserved,
  upper_hex_digit, urlencode, push_float, position_line,
}
use geomqtt.Influx.Escape.{read_tag, ends_in_backslash, read_tag-escape_tag}

-- A line ends at the first line break, which nothing hides.
unfoldable pub first_line : Text → Text
first_line [] = []
first_line (c ∷ s) = let rest = first_line s in if c == b'\n' then [] else c ∷ rest

-- The two tags of a position line, which is the first line of a text, and its fields as they stand.
unfoldable pub read_position : Text → Option (Text × Text × Text)
read_position text = do
  tags ← strip_prefix (first_line text) (lit "geomqtt_position,set=")
  rest ← strip_prefix (read_tag tags).1 (lit ",obid=")
  fields ← strip_prefix (read_tag rest).1 (lit " ")
  some ((read_tag tags).0, (read_tag rest).0, fields)

first_line-append : (s rest : Text) → Lacks b'\n' s → first_line (s ++ b'\n' ∷ rest) ≡ s
unfolding first_line
first_line-append [] rest h = refl
first_line-append (c ∷ s) rest h = ground (arith, first_line-append s rest h.1)

append-Lacks : (b : ℕ) (s t : Text) → Lacks b s → Lacks b t → Lacks b (s ++ t)
append-Lacks b [] t h k = k
append-Lacks b (c ∷ s) t h k = (h.0, append-Lacks b s t h.1 k)

escape_tag-Lacks : (s : Text) → Lacks b'\n' s → Lacks b'\n' (escape_tag s)
unfolding escape_tag
escape_tag-Lacks [] h = tt
escape_tag-Lacks (c ∷ s) h = elim (Bool-cases (is_tag_special c)) [
  | inl e ↦ rw e (ground arith, (h.0, escape_tag-Lacks s h.1))
  | inr e ↦ rw e (h.0, escape_tag-Lacks s h.1)
]

position_line-Lacks :
    (set member : Text) (lon lat : Option Text)
    → Lacks b'\n' set
    → Lacks b'\n' member
    → Lacks b'\n' (push_float lon)
    → Lacks b'\n' (push_float lat)
    → Lacks b'\n' (position_line set member lon lat)
unfolding position_line
position_line-Lacks set member lon lat hs hm ho ha =
    append-Lacks b'\n' (lit "geomqtt_position,set=") _ (ground arith) (
      append-Lacks b'\n' (escape_tag set) _ (escape_tag-Lacks set hs) (
        append-Lacks b'\n' (lit ",obid=") _ (ground arith) (
          append-Lacks b'\n' (escape_tag member) _ (escape_tag-Lacks member hm) (
            append-Lacks b'\n' (lit " lat=") _ (ground arith) (
              append-Lacks b'\n' (push_float lat) _ ha
                (append-Lacks b'\n' (lit ",lon=") _ (ground arith) ho))))))

position_tags :
    (set member : Text) (lon lat : Option Text) (text : Text)
    → ends_in_backslash set ≡ false
    → ends_in_backslash member ≡ false
    → first_line text ≡ position_line set member lon lat
    → read_position text
      ≡ some (set, member, lit "lat=" ++ (push_float lat ++ (lit ",lon=" ++ push_float lon)))
unfolding read_position position_line strip_prefix
position_tags set member lon lat text hs hm e = rw (
  e,
  read_tag-escape_tag set _ b',' hs (unfold is_tag_special in refl),
  read_tag-escape_tag member _ b' ' hm (unfold is_tag_special in refl),
)

-- The set and the member of a position line are read back, with the coordinates in their fields,
-- whatever lines follow it in the same post, if neither name ends in a backslash and neither name
-- nor the print of a coordinate holds a line break.
pub read_position-position_line :
    (set member : Text) (lon lat : Option Text) (rest : Text)
    → ends_in_backslash set ≡ false
    → ends_in_backslash member ≡ false
    → Lacks b'\n' set
    → Lacks b'\n' member
    → Lacks b'\n' (push_float lon)
    → Lacks b'\n' (push_float lat)
    → read_position (position_line set member lon lat ++ b'\n' ∷ rest)
      ≡ some (set, member, lit "lat=" ++ (push_float lat ++ (lit ",lon=" ++ push_float lon)))
read_position-position_line set member lon lat rest hs hm ls lm lo la =
    position_tags set member lon lat _ hs hm
      (first_line-append _ rest (position_line-Lacks set member lon lat ls lm lo la))

-- The inside of a quoted string, up to the closing quote, and what follows it.
unfoldable pub read_string : Text → Option (Text × Text)
read_string [] = none
read_string (c ∷ []) = if c == b'"' then some ([], []) else none
read_string (c ∷ d ∷ s) =
    let hidden = read_string s in
    let plain = read_string (d ∷ s) in
    if c == b'"'
    then some ([], d ∷ s)
    else if c == b'\\' && is_string_special d
    then (do (v, rest) ← hidden; some (d ∷ v, rest))
    else do (v, rest) ← plain; some (c ∷ v, rest)

read_string_hidden :
    (d : ℕ) (v s rest : Text)
    → is_string_special d ≡ true
    → read_string s ≡ some (v, rest)
    → read_string (b'\\' ∷ d ∷ s) ≡ some (d ∷ v, rest)
unfolding read_string
read_string_hidden d v s rest h e = rw (h, e)

read_string_plain :
    (c : ℕ) (v s rest : Text)
    → is_string_special c ≡ false
    → read_string s ≡ some (v, rest)
    → read_string (c ∷ s) ≡ some (c ∷ v, rest)
unfolding read_string is_string_special
read_string_plain c v [] rest h e = cc
read_string_plain c v (d ∷ s) rest h e = ground arith

read_string-escape_string :
    (s rest : Text) → read_string (escape_string s ++ b'"' ∷ rest) ≡ some (s, rest)
unfolding escape_string
read_string-escape_string [] [] = unfold read_string in refl
read_string-escape_string [] (c ∷ rest) = unfold read_string in refl
read_string-escape_string (c ∷ s) rest = elim (Bool-cases (is_string_special c)) [
  | inl e ↦ rw e (read_string_hidden c s _ rest e (read_string-escape_string s rest))
  | inr e ↦ rw e (read_string_plain c s _ rest e (read_string-escape_string s rest))
]

-- A string field stands between quotes and is read back whole, whatever it holds and whatever
-- follows it.
read_string-push_string_field :
    (s rest : Text)
    → (body : Text) × (push_string_field s ++ rest ≡ b'"' ∷ body)
      × (read_string body ≡ some (s, rest))
unfolding push_string_field
read_string-push_string_field s rest =
    (escape_string s ++ b'"' ∷ rest, rw append_assoc, read_string-escape_string s rest)

hex_value : ℕ → Option ℕ
hex_value c =
    if leb b'0' c && leb c b'9'
    then some (c - b'0')
    else if leb b'A' c && leb c b'F'
    then some (c + 10 - b'A')
    else none

-- Percent decoding, as a server does it to a query.
unfoldable pub urldecode : Text → Option Bytes
unfolding hex_value
urldecode [] = some []
urldecode (c ∷ []) = if c == b'%' then none else some (c ∷ [])
urldecode (c ∷ d ∷ []) =
    let plain = urldecode (d ∷ []) in if c == b'%' then none else (do r ← plain; some (c ∷ r))
urldecode (c ∷ d ∷ e ∷ s) =
    let plain = urldecode (d ∷ e ∷ s) in
    let coded = urldecode s in
    if c == b'%'
    then (do hi ← hex_value d; lo ← hex_value e; r ← coded; some ((hi * 16 + lo) ∷ r))
    else do r ← plain; some (c ∷ r)

urldecode_plain :
    (c : ℕ) (s r : Text)
    → is_unreserved c ≡ true
    → urldecode s ≡ some r
    → urldecode (c ∷ s) ≡ some (c ∷ r)
unfolding urldecode is_unreserved
urldecode_plain c [] r h e = ground arith
urldecode_plain c (d ∷ []) r h e = ground arith
urldecode_plain c (d ∷ f ∷ s) r h e = ground arith

hex_value-upper_hex_digit : (d : ℕ) → d < 16 → hex_value (upper_hex_digit d) ≡ some d
unfolding hex_value upper_hex_digit
hex_value-upper_hex_digit d h = ground arith

urldecode_coded :
    (b : ℕ) (s r : Text)
    → b < 256
    → urldecode s ≡ some r
    → urldecode (b'%' ∷ upper_hex_digit (b / 16) ∷ upper_hex_digit (b % 16) ∷ s) ≡ some (b ∷ r)
unfolding urldecode
urldecode_coded b s r h e =
    rw
      (
        hex_value-upper_hex_digit (b / 16) (omega arith),
        hex_value-upper_hex_digit (b % 16) (omega arith),
        e,
      )
      (ground arith)

-- Bytes that are percent-encoded, as the organisation and the bucket are, are decoded to themselves.
urldecode-urlencode : (s : Bytes) → All (λ b. b < 256) s → urldecode (urlencode s) ≡ some s
unfolding urlencode
urldecode-urlencode [] h = unfold urldecode in refl
urldecode-urlencode (b ∷ s) (hb, hs) = elim (Bool-cases (is_unreserved b)) [
  | inl e ↦ rw e (urldecode_plain b _ s e (urldecode-urlencode s hs))
  | inr e ↦ rw e (urldecode_coded b _ s hb (urldecode-urlencode s hs))
]
