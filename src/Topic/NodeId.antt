-- ===== src/Topic/NodeId.antt =====
-- The ids that nodes make for themselves.
use geomqtt.Base.{
  ℕ, zero, suc, ◌/◌, ◌%◌, ◌^◌, ◌<◌, [], ◌∷◌, some, ◌≡◌, arith, Text, Bytes, All, All-append, Lacks,
  true, IsAscii, is_utf8, is_utf8_ascii,
}
use geomqtt.Topic.Node.{hex_digit, hex_digits, hex, make_node_id, build_envelope, split_envelope}
use geomqtt.Topic.RoundTrip.{split_envelope-build_envelope}

-- Below the bar, which is 124.
abbrev IsPlain : Text → Type 0
IsPlain = All (λ c. c < b'|')

hex_digit-lt : (d : ℕ) → d < 16 → hex_digit d < b'|'
unfolding hex_digit
hex_digit-lt d h = ground arith

hex_digits-IsPlain : (f n : ℕ) (out : Text) → IsPlain out → IsPlain (hex_digits f n out)
unfolding hex_digits
hex_digits-IsPlain zero n out h = h
hex_digits-IsPlain (suc f) n out h =
    let d = hex_digit-lt (n % 16) (omega arith) in
    ground (arith, hex_digits-IsPlain f (n / 16) (hex_digit (n % 16) ∷ out) (d, h))

make_node_id-IsPlain : (pid nanos : ℕ) → IsPlain (make_node_id pid nanos)
unfolding make_node_id hex
make_node_id-IsPlain pid nanos =
    All-append _ (hex pid) _ (hex_digits-IsPlain 16 pid [] tt)
      (omega arith, hex_digits-IsPlain 16 (nanos % 2 ^ 64) [] tt)

IsPlain-Lacks : (s : Text) → IsPlain s → Lacks b'|' s
IsPlain-Lacks [] h = tt
IsPlain-Lacks (c ∷ s) h = (omega arith, IsPlain-Lacks s h.1)

IsPlain-IsAscii : (s : Text) → IsPlain s → IsAscii s
IsPlain-IsAscii [] h = tt
IsPlain-IsAscii (c ∷ s) h = (omega arith, IsPlain-IsAscii s h.1)

pub make_node_id-Lacks : (pid nanos : ℕ) → Lacks b'|' (make_node_id pid nanos)
make_node_id-Lacks pid nanos = IsPlain-Lacks _ (make_node_id-IsPlain pid nanos)

pub make_node_id-utf8 : (pid nanos : ℕ) → is_utf8 (make_node_id pid nanos) ≡ true
make_node_id-utf8 pid nanos = is_utf8_ascii _ (IsPlain-IsAscii _ (make_node_id-IsPlain pid nanos))

-- An envelope that a node builds with its own id is taken apart into that id and the payload,
-- whatever the process id, the clock and the payload are.
split_envelope-own :
    (pid nanos : ℕ) (payload : Bytes)
    → split_envelope (build_envelope (make_node_id pid nanos) payload)
      ≡ some (make_node_id pid nanos, payload)
split_envelope-own pid nanos payload =
    split_envelope-build_envelope _ payload (make_node_id-Lacks pid nanos)
      (make_node_id-utf8 pid nanos)
