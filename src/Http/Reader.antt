-- ===== src/Http/Reader.antt =====
-- A client that looks the parts of a GeoJSON document up by their keys (RFC 7946).
use geomqtt.Base.{
  List, [], ◌∷◌, Option, none, some, ◌≡◌, refl, ap, Text, lit, text_eq, if◌then◌else◌, ◌>>=◌,
}
use geomqtt.Http.Document.{Document, Documents, Fields, array_of, feature, feature_collection}
use geomqtt.Payload.Attrs.{Attrs}

module _ (F : Type 0) where
  get : Text → Document F → Option (Document F)
  get k (Document.object fields) = go fields
    where
      go : Fields F → Option (Document F)
      go Fields.done = none
      go (Fields.field j d rest) = let later = go rest in if text_eq k j then some d else later
  get k _ = none

  get_text : Text → Document F → Option Text
  get_text k d = elim (get k d) [ some (Document.text s) ↦ some s | _ ↦ none ]

  -- The type of a document is the one that is wanted.
  of_type : Text → Document F → Option (Unit {0})
  of_type name d = do found ← get_text (lit "type") d; if text_eq found name then some tt else none

  -- A longitude and then a latitude.
  coordinates : Document F → Option (F × F)
  coordinates
        (Document.array (
          Documents.cons
            (Document.number lon)
            (Documents.cons (Document.number lat) Documents.nil))) =
      some (lon, lat)
  coordinates _ = none

  attributes : Document F → Option Attrs
  attributes (Document.attrs m) = some m
  attributes _ = none

  -- The id, the longitude, the latitude and the properties of a feature at a point.
  unfoldable pub read_feature : Document F → Option (Text × F × F × Attrs)
  unfolding get get_text of_type coordinates attributes text_eq
  read_feature d = do
    feature ← of_type (lit "Feature") d
    id ← get_text (lit "id") d
    geometry ← get (lit "geometry") d
    point ← of_type (lit "Point") geometry
    (lon, lat) ← get (lit "coordinates") geometry >>= coordinates
    props ← get (lit "properties") d >>= attributes
    some (id, lon, lat, props)

  listed : Documents F → List (Document F)
  listed Documents.nil = []
  listed (Documents.cons d ds) = d ∷ listed ds

  elements : Document F → Option (List (Document F))
  unfolding listed
  elements (Document.array ds) = some (listed ds)
  elements _ = none

  -- The features of a collection.
  unfoldable pub read_collection : Document F → Option (List (Document F))
  unfolding get get_text of_type text_eq elements
  read_collection d = do
    collection ← of_type (lit "FeatureCollection") d
    get (lit "features") d >>= elements

  pub read_feature-feature :
      (id : Text) (lat lng : F) (props : Attrs)
      → read_feature (feature id lat lng props) ≡ some (id, lng, lat, props)
  unfolding read_feature feature
  read_feature-feature id lat lng props = refl

  elements-array_of : (ds : List (Document F)) → elements (array_of ds) ≡ some ds
  unfolding elements listed
  elements-array_of [] = refl
  elements-array_of (d ∷ ds) =
      ap
        (λ o. elim o as (λ _. Option (List (Document F))) [ none ↦ none | some es ↦ some (d ∷ es) ])
        (elements-array_of ds)

  pub read_collection-feature_collection :
      (ds : List (Document F)) → read_collection (feature_collection ds) ≡ some ds
  unfolding read_collection feature_collection
  read_collection-feature_collection ds = elements-array_of ds
