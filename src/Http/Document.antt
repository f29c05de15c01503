-- ===== src/Http/Document.antt =====
-- http.rs: the JSON documents. An object is the list of its fields, in the order of the source; how
-- a document is printed is left to the library, also what becomes of a number that is not finite.
use geomqtt.Base.{ℕ, List, [], ◌∷◌, Text, lit}
use geomqtt.Payload.Attrs.{Attrs}

module _ (F : Type 0) where
  mutual
    pub data Document : Type 0 where
      null : Document
      text : Text → Document
      number : F → Document
      integer : ℕ → Document
      attrs : Attrs → Document
      array : Documents → Document
      object : Fields → Document

    pub data Documents : Type 0 where
      nil : Documents
      cons : Document → Documents → Documents

    pub data Fields : Type 0 where
      done : Fields
      field : Text → Document → Fields → Fields

module _ {F : Type 0} where
  abbrev items : List (Document F) → Documents F
  items [] = Documents.nil
  items (d ∷ ds) = Documents.cons d (items ds)

  abbrev pub array_of : List (Document F) → Document F
  array_of ds = Document.array (items ds)

  abbrev pub fields : List (Text × Document F) → Fields F
  fields [] = Fields.done
  fields ((key, d) ∷ rest) = Fields.field key d (fields rest)

  -- `json!({ … })`
  abbrev pub object_of : List (Text × Document F) → Document F
  object_of fs = Document.object (fields fs)

  unfoldable pub feature : Text → F → F → Attrs → Document F
  feature id lat lng props = object_of (
      (lit "type", Document.text (lit "Feature"))
      ∷ (lit "id", Document.text id)
      ∷ (
        lit "geometry",
        object_of (
            (lit "type", Document.text (lit "Point"))
            ∷ (lit "coordinates", array_of (Document.number lng ∷ Document.number lat ∷ []))
            ∷ []),
      )
      ∷ (lit "properties", Document.attrs props)
      ∷ [])

  -- The feature of an object whose position is not known.
  unfoldable pub feature_without_position : Text → Attrs → Document F
  feature_without_position obid props = object_of (
      (lit "type", Document.text (lit "Feature"))
      ∷ (lit "geometry", Document.null)
      ∷ (lit "properties", Document.attrs props)
      ∷ (lit "id", Document.text obid)
      ∷ [])

  unfoldable pub feature_collection : List (Document F) → Document F
  feature_collection features = object_of (
      (lit "type", Document.text (lit "FeatureCollection"))
      ∷ (lit "features", array_of features)
      ∷ [])
