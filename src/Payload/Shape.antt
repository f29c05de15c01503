-- ===== src/Payload/Shape.antt =====
-- A client that looks the fields up by their keys recovers the payload (PROTOCOL.md, section 4).
use geomqtt.Base.{
  ℕ, List, [], ◌∷◌, Option, none, some, ◌≡◌, refl, Text, lit, text_eq, if◌then◌else◌, ◌>>=◌,
}
use geomqtt.Payload.Attrs.{Attrs}
use geomqtt.Payload.Defs.{TilePayload, ObjectPayload, Json, tile_fields, object_fields}

module _ (F : Type 0) where
  get : Text → List (Text × Json F) → Option (Json F)
  get k [] = none
  get k ((j, v) ∷ r) = if text_eq k j then some v else get k r

  get_text : Text → List (Text × Json F) → Option Text
  get_text k r = elim (get k r) [ some (Json.text s) ↦ some s | _ ↦ none ]

  get_float : Text → List (Text × Json F) → Option F
  get_float k r = elim (get k r) [ some (Json.float x) ↦ some x | _ ↦ none ]

  get_integer : Text → List (Text × Json F) → Option ℕ
  get_integer k r = elim (get k r) [ some (Json.integer n) ↦ some n | _ ↦ none ]

  -- Attributes that are left out are no attributes.
  get_attrs : List (Text × Json F) → Option Attrs
  get_attrs r = elim (get (lit "attrs") r) [
    | none ↦ some []
    | some (Json.object m) ↦ some m
    | _ ↦ none
  ]

  placed : (F → F → TilePayload F) → List (Text × Json F) → Option (TilePayload F)
  placed make r = do
    lat ← get_float (lit "lat") r
    lng ← get_float (lit "lng") r
    some (make lat lng)

  tile_of : Text → Text → ℕ → Attrs → List (Text × Json F) → Option (TilePayload F)
  tile_of op id ts attrs r =
      if text_eq op (lit "snapshot")
      then placed (λ lat lng. TilePayload.snapshot id lat lng attrs ts) r
      else if text_eq op (lit "add")
      then placed (λ lat lng. TilePayload.add id lat lng attrs ts) r
      else if text_eq op (lit "move")
      then placed (λ lat lng. TilePayload.move id lat lng ts) r
      else if text_eq op (lit "remove")
      then some (TilePayload.remove id ts)
      else if text_eq op (lit "attr")
      then some (TilePayload.attr id attrs ts)
      else none

  unfoldable pub read_tile : List (Text × Json F) → Option (TilePayload F)
  unfolding get get_text get_float get_integer get_attrs text_eq placed tile_of
  read_tile r = do
    op ← get_text (lit "op") r
    id ← get_text (lit "id") r
    ts ← get_integer (lit "ts") r
    attrs ← get_attrs r
    tile_of op id ts attrs r

  object_of : Text → Text → ℕ → Attrs → Option ObjectPayload
  object_of op id ts attrs =
      if text_eq op (lit "snapshot")
      then some (ObjectPayload.snapshot id attrs ts)
      else if text_eq op (lit "attr")
      then some (ObjectPayload.attr id attrs ts)
      else if text_eq op (lit "delete")
      then some (ObjectPayload.delete id ts)
      else none

  unfoldable pub read_object : List (Text × Json F) → Option ObjectPayload
  unfolding get get_text get_integer get_attrs text_eq object_of
  read_object r = do
    op ← get_text (lit "op") r
    id ← get_text (lit "id") r
    ts ← get_integer (lit "ts") r
    attrs ← get_attrs r
    object_of op id ts attrs

  -- Every tile payload is recovered from the fields that are written, with the attributes that are
  -- left out when there are none.
  pub read_tile-tile_fields : (p : TilePayload F) → read_tile (tile_fields p) ≡ some p
  unfolding read_tile tile_fields
  read_tile-tile_fields (TilePayload.snapshot id lat lng [] ts) = refl
  read_tile-tile_fields (TilePayload.snapshot id lat lng (a ∷ attrs) ts) = refl
  read_tile-tile_fields (TilePayload.add id lat lng [] ts) = refl
  read_tile-tile_fields (TilePayload.add id lat lng (a ∷ attrs) ts) = refl
  read_tile-tile_fields (TilePayload.move id lat lng ts) = refl
  read_tile-tile_fields (TilePayload.remove id ts) = refl
  read_tile-tile_fields (TilePayload.attr id attrs ts) = refl

  -- Every object payload is recovered from the fields that are written.
  read_object-object_fields : (p : ObjectPayload) → read_object (object_fields p) ≡ some p
  unfolding read_object object_fields
  read_object-object_fields (ObjectPayload.snapshot id attrs ts) = refl
  read_object-object_fields (ObjectPayload.attr id attrs ts) = refl
  read_object-object_fields (ObjectPayload.delete id ts) = refl
