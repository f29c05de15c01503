-- ===== src/Topic/Node.antt =====
-- redis.rs: the id of a node, and the envelope `<node id>|<payload>`.
use geomqtt.Base.{
  ℕ, zero, suc, ◌+◌, ◌/◌, ◌%◌, ◌^◌, ◌-◌, [], ◌∷◌, ◌++◌, Option, some, Text, Bytes, ◌>>=◌, ltb, ◌==◌,
  if◌then◌else◌, split_once, from_utf8,
}

-- `{:x}`: lower-case hexadecimal; a `u64` has sixteen digits at most.
unfoldable pub hex_digit : ℕ → ℕ
hex_digit d = if ltb d 10 then b'0' + d else b'a' + d - 10

unfoldable pub hex_digits : ℕ → ℕ → Text → Text
hex_digits zero n out = out
hex_digits (suc f) n out =
    let more = hex_digits f (n / 16) (hex_digit (n % 16) ∷ out) in
    if n / 16 == 0 then hex_digit (n % 16) ∷ out else more

unfoldable pub hex : ℕ → Text
hex n = hex_digits 16 n []

-- The process id and the nanoseconds of the clock; `nanos as u64` drops the high bits.
unfoldable pub make_node_id : ℕ → ℕ → Text
make_node_id pid nanos = hex pid ++ b'-' ∷ hex (nanos % 2 ^ 64)

unfoldable pub build_envelope : Text → Bytes → Bytes
build_envelope node_id payload = node_id ++ b'|' ∷ payload

-- Cuts at the first `|`.
unfoldable pub split_envelope : Bytes → Option (Text × Bytes)
split_envelope buf = do (head, body) ← split_once buf b'|'; src ← from_utf8 head; some (src, body)
