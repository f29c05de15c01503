-- ===== src/Http/Served.antt =====
-- http.rs: a request is answered, and changes nothing but its counter.
use geomqtt.Base.{List, [], ◌∷◌, Option, none, some, ◌≡◌, refl, Text}
use geomqtt.Base.Results.{Result, ok, err}
use geomqtt.Config.FromEnv.{Config}
use geomqtt.Float.{F64}
use geomqtt.Http.Document.{Document}
use geomqtt.Http.Queries.{
  features_of, collection_of, feature_collection_for_bbox, feature_of_attrs, feature_for_object,
}
use geomqtt.Http.Handle.{
  Response, Request, Process, settings, status_prom, tile_geojson, viewport_answer,
  viewport_geojson, object_geojson, handle, count_request,
}
use geomqtt.Metrics.{inc}
use geomqtt.Mqtt.Attributes.{Settings, hgetall}
use geomqtt.Mqtt.Geo.{GeoHit, box_of, geosearch_box}
use geomqtt.Mqtt.Quiet.{hgetall-IsQuiet, geosearch_box-IsQuiet}
use geomqtt.Payload.Attrs.{Attrs}
use geomqtt.World.Quiet.{IsQuiet, Keeps-elim, Keeps-value}
use geomqtt.World.{Env, World}

module _ (env : Env) (cfg : Settings) where
  open env use {float}
  open float use {F}

  features_of-IsQuiet : (hits : List (GeoHit F)) → IsQuiet env (features_of env cfg hits)
  unfolding features_of
  features_of-IsQuiet [] w = (_, refl)
  features_of-IsQuiet (hit ∷ hits) w =
      Keeps-elim env w (hgetall env cfg hit.member w) _ (hgetall-IsQuiet env cfg hit.member w)
        (λ attrs v.
          Keeps-elim env v (features_of env cfg hits v) _ (features_of-IsQuiet hits v)
            (λ features u. (_, refl)))

  collection_of-IsQuiet :
      (hits : Option (List (GeoHit F))) → IsQuiet env (collection_of env cfg hits)
  unfolding collection_of
  collection_of-IsQuiet none w = (_, refl)
  collection_of-IsQuiet (some hits) w =
      Keeps-elim env w (features_of env cfg hits w) _ (features_of-IsQuiet hits w)
        (λ features v. (_, refl))

  feature_collection_for_bbox-IsQuiet :
      (set : Text) (bbox : F × F × F × F)
      → IsQuiet env (feature_collection_for_bbox env cfg set bbox)
  unfolding feature_collection_for_bbox
  feature_collection_for_bbox-IsQuiet set bbox w =
      Keeps-elim env w (geosearch_box env set (box_of float bbox) w) _
        (geosearch_box-IsQuiet env set (box_of float bbox) w) collection_of-IsQuiet

  feature_of_attrs-IsQuiet :
      (obid : Text) (attrs : Option Attrs) → IsQuiet env (feature_of_attrs env cfg obid attrs)
  unfolding feature_of_attrs
  feature_of_attrs-IsQuiet obid none w = (_, refl)
  feature_of_attrs-IsQuiet obid (some []) w = (_, refl)
  feature_of_attrs-IsQuiet obid (some (a ∷ attrs)) w = (_, refl)

  feature_for_object-IsQuiet : (obid : Text) → IsQuiet env (feature_for_object env cfg obid)
  unfolding feature_for_object
  feature_for_object-IsQuiet obid w =
      Keeps-elim env w (hgetall env cfg obid w) _ (hgetall-IsQuiet env cfg obid w)
        (feature_of_attrs-IsQuiet obid)

module _ (env : Env) {SocketAddr : Type 0} (cfg : Config SocketAddr)
    (to_string : Document (F64.F (Env.float env)) → Text) (reason : Text)
    (process : Process (Env.float env)) where
  open env use {float}
  open float use {F}

  viewport_answer-IsQuiet :
      (set : Text) (bbox : Result Text (F × F × F × F))
      → IsQuiet env (viewport_answer env cfg to_string reason process set bbox)
  unfolding viewport_answer
  viewport_answer-IsQuiet set (err message) w = (_, refl)
  viewport_answer-IsQuiet set (ok bbox) w =
      Keeps-elim env w (feature_collection_for_bbox env (settings cfg) set bbox w) _
        (feature_collection_for_bbox-IsQuiet env (settings cfg) set bbox w) (λ fc v. (_, refl))

  handle-IsQuiet : (req : Request) → IsQuiet env (handle env cfg to_string reason process req)
  unfolding handle status_prom tile_geojson viewport_geojson object_geojson
  handle-IsQuiet Request.healthz w = (_, refl)
  handle-IsQuiet Request.status w = (_, refl)
  handle-IsQuiet Request.config w = (_, refl)
  handle-IsQuiet (Request.tile set z x y) w =
      Keeps-elim env w (feature_collection_for_bbox env (settings cfg) set _ w) _
        (feature_collection_for_bbox-IsQuiet env (settings cfg) set _ w) (λ fc v. (_, refl))
  handle-IsQuiet (Request.viewport set bbox) w = viewport_answer-IsQuiet set _ w
  handle-IsQuiet (Request.object obid) w =
      Keeps-elim env w (feature_for_object env (settings cfg) obid w) _
        (feature_for_object-IsQuiet env (settings cfg) obid w) (λ feat v. (_, refl))

  -- Every request is answered, whatever Redis answers. The request is counted; beyond that the
  -- broker, the channels, the other counters, the queue of InfluxDB and the clock are as before.
  pub count_request_answers :
      (req : Request) (w : World env)
      → (r : Response) × (s : env.redis.State) × (count_request env cfg to_string reason process req
            w
          ≡ some (
            r,
            record w {
              metrics = record w.metrics { http_requests = inc w.metrics.http_requests };
              upstream = s;
            },
          ))
  unfolding count_request
  count_request_answers req w =
      let counted = record w {
        metrics = record w.metrics { http_requests = inc w.metrics.http_requests };
      } in
      Keeps-value env counted (handle env cfg to_string reason process req counted)
        (handle-IsQuiet req counted)
