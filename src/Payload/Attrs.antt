-- ===== src/Payload/Attrs.antt =====
-- `serde_json::Map<String, Value>`: keys in order, each once. Of a value the model keeps what the
-- server looks at; numbers, arrays and objects are held by their print.
use geomqtt.Base.{
  List, [], ◌∷◌, Option, none, some, Bool, true, false, ◌≡◌, refl, arith, Text, ltb, ◌==◌, text_eq,
  text_eq_iff, if◌then◌else◌,
}

pub data Value : Type 0 where
  null : Value
  bool : Bool → Value
  number string other : Text → Value

abbrev pub Attrs : Type 0
Attrs = List (Text × Value)

-- The order of `String`, which is that of the bytes.
unfoldable pub text_lt : Text → Text → Bool
text_lt [] [] = false
text_lt [] (d ∷ t) = true
text_lt (c ∷ s) [] = false
text_lt (c ∷ s) (d ∷ t) = if c == d then text_lt s t else ltb c d

-- `map.insert(k, v)` takes the place of the value that was there.
unfoldable pub insert : Text → Value → Attrs → Attrs
insert k v [] = (k, v) ∷ []
insert k v ((j, w) ∷ m) =
    let rest = insert k v m in
    if text_eq k j then (k, v) ∷ m else if text_lt k j then (k, v) ∷ (j, w) ∷ m else (j, w) ∷ rest

unfoldable pub lookup : Text → Attrs → Option Value
lookup k [] = none
lookup k ((j, w) ∷ m) = if text_eq k j then some w else lookup k m

unfoldable pub is_empty : Attrs → Bool
is_empty [] = true
is_empty (e ∷ m) = false

pub lookup-insert :
    (j k : Text) (v : Value) (m : Attrs)
    → lookup j (insert k v m) ≡ (if text_eq j k then some v else lookup j m)
unfolding lookup insert
lookup-insert j k v [] = refl
lookup-insert j k v ((i, w) ∷ m) =
    ground (arith, text_eq_iff j k, text_eq_iff k i, text_eq_iff j i, lookup-insert j k v m)

-- The later of two values, if there is one.
unfoldable pub or_else : Option Value → Option Value → Option Value
or_else (some later) o = some later
or_else none o = o

pub or_else-none : (o : Option Value) → or_else o none ≡ o
unfolding or_else
or_else-none (some v) = refl
or_else-none none = refl

-- A value at a key comes after those of the map and before the later ones.
pub or_else-if :
    (later o : Option Value) (b : Bool) (v : Value)
    → or_else later (if b then some v else o)
      ≡ or_else (or_else later (if b then some v else none)) o
unfolding or_else
or_else-if (some later) o b v = refl
or_else-if none o true v = refl
or_else-if none o false v = refl
