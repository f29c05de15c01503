-- ===== src/Payload/Defs.antt =====
-- payload.rs: the two payloads, their constructors and the fields that are written. The clock is
-- an argument, and the writer of JSON is the library's.
use geomqtt.Base.{ℕ, List, [], ◌∷◌, ◌++◌, Text, lit, if◌then◌else◌}
use geomqtt.Payload.Attrs.{Attrs, is_empty}

module _ (F : Type 0) where
  pub data TilePayload : Type 0 where
    snapshot add : Text → F → F → Attrs → ℕ → TilePayload
    move : Text → F → F → ℕ → TilePayload
    remove : Text → ℕ → TilePayload
    attr : Text → Attrs → ℕ → TilePayload

  -- What stands behind a key of the JSON object.
  pub data Json : Type 0 where
    float : F → Json
    integer : ℕ → Json
    text : Text → Json
    object : Attrs → Json

pub data ObjectPayload : Type 0 where
  snapshot attr : Text → Attrs → ℕ → ObjectPayload
  delete : Text → ℕ → ObjectPayload

module _ {F : Type 0} where
  -- `skip_serializing_if = "is_empty"`
  unfoldable pub attrs_field : Attrs → List (Text × Json F)
  unfolding is_empty
  attrs_field attrs = if is_empty attrs then [] else (lit "attrs", Json.object attrs) ∷ []

  -- `tag = "op", rename_all = "lowercase"`
  unfoldable pub tile_fields : TilePayload F → List (Text × Json F)
  unfolding attrs_field
  tile_fields (TilePayload.snapshot id lat lng attrs ts) =
      (lit "op", Json.text (lit "snapshot"))
      ∷ (lit "id", Json.text id)
      ∷ (lit "lat", Json.float lat)
      ∷ (lit "lng", Json.float lng)
      ∷ (attrs_field attrs ++ (lit "ts", Json.integer ts) ∷ [])
  tile_fields (TilePayload.add id lat lng attrs ts) =
      (lit "op", Json.text (lit "add"))
      ∷ (lit "id", Json.text id)
      ∷ (lit "lat", Json.float lat)
      ∷ (lit "lng", Json.float lng)
      ∷ (attrs_field attrs ++ (lit "ts", Json.integer ts) ∷ [])
  tile_fields (TilePayload.move id lat lng ts) =
      (lit "op", Json.text (lit "move"))
      ∷ (lit "id", Json.text id)
      ∷ (lit "lat", Json.float lat)
      ∷ (lit "lng", Json.float lng)
      ∷ (lit "ts", Json.integer ts)
      ∷ []
  tile_fields (TilePayload.remove id ts) =
      (lit "op", Json.text (lit "remove"))
      ∷ (lit "id", Json.text id)
      ∷ (lit "ts", Json.integer ts)
      ∷ []
  tile_fields (TilePayload.attr id attrs ts) =
      (lit "op", Json.text (lit "attr"))
      ∷ (lit "id", Json.text id)
      ∷ (lit "attrs", Json.object attrs)
      ∷ (lit "ts", Json.integer ts)
      ∷ []

  unfoldable pub object_fields : ObjectPayload → List (Text × Json F)
  object_fields (ObjectPayload.snapshot id attrs ts) =
      (lit "op", Json.text (lit "snapshot"))
      ∷ (lit "id", Json.text id)
      ∷ (lit "attrs", Json.object attrs)
      ∷ (lit "ts", Json.integer ts)
      ∷ []
  object_fields (ObjectPayload.attr id attrs ts) =
      (lit "op", Json.text (lit "attr"))
      ∷ (lit "id", Json.text id)
      ∷ (lit "attrs", Json.object attrs)
      ∷ (lit "ts", Json.integer ts)
      ∷ []
  object_fields (ObjectPayload.delete id ts) =
      (lit "op", Json.text (lit "delete"))
      ∷ (lit "id", Json.text id)
      ∷ (lit "ts", Json.integer ts)
      ∷ []
