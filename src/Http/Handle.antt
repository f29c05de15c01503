-- ===== src/Http/Handle.antt =====
-- http.rs: the handlers and the middleware. The routing and the decoding of a request are the
-- library's: a request stands here with the arguments that its handler gets.
use geomqtt.Base.{ℕ, [], ◌∷◌, ◌++◌, Option, none, some, Text, lit, map}
use geomqtt.Base.Results.{Result, ok, err}
use geomqtt.Config.FromEnv.{Config}
use geomqtt.Coord.Tile.{bbox_for_tile}
use geomqtt.Float.{F64}
use geomqtt.Http.Bbox.{parse_bbox}
use geomqtt.Http.Document.{Document, array_of, object_of}
use geomqtt.Http.Queries.{feature_collection_for_bbox, feature_for_object}
use geomqtt.Metrics.{inc}
use geomqtt.Metrics.Memory.{read_proc_self_status}
use geomqtt.Metrics.Render.{render}
use geomqtt.Mqtt.Attributes.{Settings}
use geomqtt.World.{Env, M, ◌>>=◌, ◌>>◌, pure, gets, count}

-- A response, with the type of the content where the handler sets it.
pub record Response : Type 0 where
  pub status : ℕ
  pub content_type : Option Text
  pub body : Text

pub data Request : Type 0 where
  healthz status config : Request
  tile : Text → ℕ → ℕ → ℕ → Request
  viewport : Text → Text → Request
  object : Text → Request

unfoldable pub plain : ℕ → Text → Response
plain code body = record { status = code; content_type = none; body = body }

unfoldable pub geojson_ct : Option Text
geojson_ct = some (lit "application/geo+json")

unfoldable pub geojson : Text → Response
unfolding geojson_ct
geojson body = record { status = 200; content_type = geojson_ct; body = body }

-- What the handlers read of the configuration.
abbrev pub settings : {SocketAddr : Type 0} → Config SocketAddr → Settings
settings c = record {
  enrich_attrs = c.enrich_attrs;
  enrich_zooms = c.enrich_zooms;
  object_key_prefix = c.object_key_prefix;
}

module _ (float : F64) where
  open float use {F}

  -- What the process knows of itself: the version of the package, the uptime and the text of
  -- `/proc/self/status`.
  pub record Process : Type 0 where
    pub version : Text
    pub uptime : F
    pub proc_status : Option Text

-- `to_string` prints a document, and `reason` is the print of an error.
module _ (env : Env) {SocketAddr : Type 0} (cfg : Config SocketAddr)
    (to_string : Document (F64.F (Env.float env)) → Text) (reason : Text)
    (process : Process (Env.float env)) where
  open env use {float, node_id}
  open float use {F}

  unfoldable pub status_prom : M env Response
  status_prom = gets λ w. record {
    status = 200;
    content_type = some (lit "text/plain; version=0.0.4");
    body =
        render float process.version process.uptime w.metrics w.broker node_id
          (read_proc_self_status process.proc_status);
  }

  unfoldable pub config_json : Response
  config_json =
      let body = object_of (
        (lit "tileSize", Document.integer cfg.tile_size)
        ∷ (lit "zooms", array_of (map Document.integer cfg.enrich_zooms))
        ∷ (lit "rawZooms", array_of (map Document.integer cfg.raw_zooms))
        ∷ (lit "enrichAttrs", array_of (map Document.text cfg.enrich_attrs))
        ∷ (lit "objectKeyPrefix", Document.text cfg.object_key_prefix)
        ∷ []) in
      record { status = 200; content_type = some (lit "application/json"); body = to_string body }

  unfoldable pub failed : Response
  failed = plain 500 (lit "error: " ++ reason)

  unfoldable pub collection_response : Option (Document F) → Response
  unfolding failed
  collection_response none = failed
  collection_response (some fc) = geojson (to_string fc)

  unfoldable pub tile_geojson : Text → ℕ → ℕ → ℕ → M env Response
  tile_geojson set z x y = do
    fc ← feature_collection_for_bbox env (settings cfg) set (bbox_for_tile float z x y)
    pure (collection_response fc)

  unfoldable pub viewport_answer : Text → Result Text (F × F × F × F) → M env Response
  viewport_answer set (err message) = pure (plain 400 message)
  viewport_answer set (ok bbox) = do
    fc ← feature_collection_for_bbox env (settings cfg) set bbox
    pure (collection_response fc)

  unfoldable pub viewport_geojson : Text → Text → M env Response
  viewport_geojson set bbox = viewport_answer set (parse_bbox float bbox)

  unfoldable pub object_response : Option (Option (Document F)) → Response
  unfolding failed
  object_response none = failed
  object_response (some none) = plain 404 (lit "not found")
  object_response (some (some feat)) = geojson (to_string feat)

  unfoldable pub object_geojson : Text → M env Response
  object_geojson obid = do
    feat ← feature_for_object env (settings cfg) obid
    pure (object_response feat)

  -- The routes.
  unfoldable pub handle : Request → M env Response
  handle Request.healthz = pure (plain 200 (lit "ok"))
  handle Request.status = status_prom
  handle Request.config = pure config_json
  handle (Request.tile set z x y) = tile_geojson set z x y
  handle (Request.viewport set bbox) = viewport_geojson set bbox
  handle (Request.object obid) = object_geojson obid

  -- The middleware, around every handler.
  unfoldable pub count_request : Request → M env Response
  count_request req = do
    count env (λ m. record m { http_requests = inc m.http_requests })
    handle req
