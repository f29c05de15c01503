-- ===== src/Http/Features.antt =====
-- http.rs: the features of a tile.
use geomqtt.Base.{ℕ, List, [], ◌∷◌, ◌++◌, Option, none, some, ◌≡◌, refl, Text, lit}
use geomqtt.Config.FromEnv.{Config}
use geomqtt.Coord.Tile.{bbox_for_tile}
use geomqtt.Float.{F64}
use geomqtt.Http.Document.{Document, feature, feature_collection}
use geomqtt.Http.Handle.{
  Response, Process, settings, geojson_ct, geojson, plain, failed, collection_response,
  tile_geojson,
}
use geomqtt.Http.Reader.{
  read_feature, read_collection, read_feature-feature, read_collection-feature_collection,
}
use geomqtt.Http.Queries.{features_of, collection_of, feature_collection_for_bbox}
use geomqtt.Mqtt.Attributes.{Settings, hgetall, collected, or_empty}
use geomqtt.Mqtt.Fields.{answered_field, lookup-collected, hgetall_runs}
use geomqtt.Mqtt.Geo.{GeoHit, box_of, parsed, geosearch_box}
use geomqtt.Payload.Attrs.{Attrs}
use geomqtt.Payload.Attrs
use geomqtt.World.{Env, World, ◌>>=◌}

module _ (env : Env) (cfg : Settings) where
  open env use {float, redis}
  open float use {F}

  -- The attributes of a member, as Redis answers when it is asked, and its state after that.
  abbrev attributes_of : Text → redis.State → Option (List (Text × Text))
  attributes_of member u = (redis.hgetall (cfg.object_key_prefix ++ member) u).1

  abbrev asked : Text → redis.State → redis.State
  asked member u = (redis.hgetall (cfg.object_key_prefix ++ member) u).0

  -- A document that reads as a feature of a member, at the place where the member was found. Each
  -- property has the value that Redis answers for the field, and there are none if Redis answers
  -- with an error.
  abbrev pub Shows : GeoHit F → redis.State → Document F → Type 0
  Shows hit u d =
      (props : Attrs) × (read_feature F d ≡ some (hit.member, hit.lng, hit.lat, props))
      × ((j : Text) → Attrs.lookup j props ≡ answered_field j (attributes_of hit.member u))

  -- One such document for each member, in order, where Redis is asked for one after the other.
  abbrev pub AllShown : List (GeoHit F) → redis.State → List (Document F) → Type 0
  AllShown [] u [] = Unit
  AllShown (hit ∷ hits) u (d ∷ ds) = Shows hit u d × AllShown hits (asked hit.member u) ds
  AllShown _ u _ = ⊥

  -- The state of Redis after it has been asked for all of them.
  abbrev pub all_asked : List (GeoHit F) → redis.State → redis.State
  all_asked [] u = u
  all_asked (hit ∷ hits) u = all_asked hits (asked hit.member u)

  features_of_cons :
      (hit : GeoHit F) (hits : List (GeoHit F)) (w w1 w2 : World env) (attrs : Option Attrs)
      (ds : List (Document F))
      → hgetall env cfg hit.member w ≡ some (attrs, w1)
      → features_of env cfg hits w1 ≡ some (ds, w2)
      → features_of env cfg (hit ∷ hits) w
        ≡ some (feature hit.member hit.lat hit.lng (or_empty attrs) ∷ ds, w2)
  unfolding features_of
  features_of_cons hit hits w w1 w2 attrs ds e e' = rw (e, e', ◌>>=◌) refl

  collection_of_found :
      (hits : List (GeoHit F)) (w w1 : World env) (ds : List (Document F))
      → features_of env cfg hits w ≡ some (ds, w1)
      → collection_of env cfg (some hits) w ≡ some (some (feature_collection ds), w1)
  unfolding collection_of
  collection_of_found hits w w1 ds e = rw (e, ◌>>=◌) refl

  features_of_all :
      (hits : List (GeoHit F)) (w : World env)
      → (ds : List (Document F)) × (features_of env cfg hits w
          ≡ some (ds, record w { upstream = all_asked hits w.upstream }))
        × AllShown hits w.upstream ds
  unfolding features_of
  features_of_all [] w = ([], refl, tt)
  features_of_all (hit ∷ hits) w =
      let answer = attributes_of hit.member w.upstream in
      let (ds, e, all) =
        features_of_all hits (record w { upstream = asked hit.member w.upstream }) in
      let props = or_empty (collected answer) in
      (
        feature hit.member hit.lat hit.lng props ∷ ds,
        features_of_cons hit hits w _ _ (collected answer) ds (hgetall_runs env cfg hit.member w) e,
        (
          (
            props,
            read_feature-feature F hit.member hit.lat hit.lng props,
            λ j. lookup-collected j answer,
          ),
          all,
        ),
      )

module _ (env : Env) {SocketAddr : Type 0} (cfg : Config SocketAddr)
    (to_string : Document (F64.F (Env.float env)) → Text) (reason : Text)
    (process : Process (Env.float env)) where
  open env use {float, redis}
  open float use {F}

  -- What Redis answers to the search for the members in a tile.
  abbrev pub found_in_tile : Text → ℕ → ℕ → ℕ → World env → Option (List (GeoHit F))
  found_in_tile set z x y w =
      let (lon, lat, width_m, height_m) = box_of float (bbox_for_tile float z x y) in
      parsed env (redis.geosearch set lon lat width_m height_m w.upstream).1

  -- The state after the search.
  abbrev pub searched : Text → ℕ → ℕ → ℕ → World env → World env
  searched set z x y w =
      let (lon, lat, width_m, height_m) = box_of float (bbox_for_tile float z x y) in
      record w { upstream = (redis.geosearch set lon lat width_m height_m w.upstream).0 }

  tile_response :
      (set : Text) (z x y : ℕ) (w w' : World env) (hits : Option (List (GeoHit F)))
      (fc : Option (Document F))
      → found_in_tile set z x y w ≡ hits
      → collection_of env (settings cfg) hits (searched set z x y w) ≡ some (fc, w')
      → tile_geojson env cfg to_string reason process set z x y w
        ≡ some (collection_response env cfg to_string reason process fc, w')
  unfolding tile_geojson feature_collection_for_bbox geosearch_box
  tile_response set z x y w w' hits fc e e' = rw (e, e', ◌>>=◌) refl

  -- When the search for the members in a tile succeeds, the response has the status 200 and the type
  -- of GeoJSON, and its body is the print of a document that reads as a collection with one feature
  -- for each member that was found, in the order of the search, with its id and at its place. The
  -- properties of a feature have for each field the value that Redis answers when it is asked for
  -- the member, and there are none if Redis answers with an error. Redis has been asked for the
  -- search and for each member once, and nothing else has changed.
  pub tile_geojson-features :
      (set : Text) (z x y : ℕ) (w : World env) (hits : List (GeoHit F))
      → found_in_tile set z x y w ≡ some hits
      → (doc : Document F) × (ds : List (Document F)) × (tile_geojson env cfg to_string reason
            process set z x y w
          ≡ some (
            record {
              status = 200;
              content_type = some (lit "application/geo+json");
              body = to_string doc;
            },
            record w {
              upstream = all_asked env (settings cfg) hits (searched set z x y w).upstream;
            },
          ))
        × (read_collection F doc ≡ some ds)
        × AllShown env (settings cfg) hits (searched set z x y w).upstream ds
  unfolding collection_response geojson geojson_ct
  tile_geojson-features set z x y w hits e =
      let (ds, e', all) = features_of_all env (settings cfg) hits (searched set z x y w) in
      (
        feature_collection ds,
        ds,
        tile_response set z x y w _ (some hits) _ e
            (collection_of_found env (settings cfg) hits (searched set z x y w) _ ds e'),
        read_collection-feature_collection F ds,
        all,
      )

  -- When the search fails, the response says so, with the status of a server error.
  pub tile_geojson_failed :
      (set : Text) (z x y : ℕ) (w : World env)
      → found_in_tile set z x y w ≡ none
      → (r : Response) × (w' : World env) × (tile_geojson env cfg to_string reason process set z x y
            w
          ≡ some (r, w'))
        × (r.status ≡ 500)
  unfolding collection_response collection_of failed plain
  tile_geojson_failed set z x y w e = (_, _, tile_response set z x y w _ none none e refl, refl)
