-- ===== src/Tests/Requests.antt =====
-- The HTTP endpoints, the report and the proxy's clients at small inputs.
use geomqtt.Base.{
  ℕ, List, [], ◌∷◌, Option, none, some, true, ltb, ◌≡◌, refl, arith, Text, lit, show-Lacks, inl,
  parse_uint, u32_max, if◌then◌else◌,
}
use geomqtt.Broker.Defs.{size}
use geomqtt.Config.FromEnv.{Config}
use geomqtt.Coord.Tile.{bbox_for_tile}
use geomqtt.Float.{F64}
use geomqtt.Http.Document.{Document}
use geomqtt.Http.Features.{AllShown, all_asked, searched, tile_geojson-features}
use geomqtt.Http.Handle
use geomqtt.Http.Reader.{read_collection}
use geomqtt.Http.Handle.{Request, Response, Process, count_request, tile_geojson, viewport_geojson}
use geomqtt.Http.Same.{viewport_geojson-tile_geojson}
use geomqtt.Http.Served.{count_request_answers}
use geomqtt.Metrics
use geomqtt.Metrics.{Metrics, inc}
use geomqtt.Metrics.Render.{render}
use geomqtt.Metrics.Scrape.{sessions, name_of, scrape, scrape-render}
use geomqtt.Mqtt.Geo.{
  GeoHit, parsed, parse_geosearch, hits_of, hit_of, hit_at, value_to_string, or_no_text,
  value_to_f64, or_zero,
}
use geomqtt.Mqtt.Attributes.{Settings}
use geomqtt.Resp.Client.{Client, handle_client, handle_client_cut}
use geomqtt.Resp.Encode.{Codec, written}
use geomqtt.Resp.Frame.{Resp2Frame}
use geomqtt.Tests.Bytewise.{bytewise, bytewise-IsStreaming}
use geomqtt.Tests.Toy.{env, world, broker, whole}
use geomqtt.World.{Env, World}

abbrev pub config : Config ℕ
config = record {
  redis_url = lit "redis://127.0.0.1:6379";
  resp_addr = 6380;
  mqtt_addr = 1883;
  mqtt_ws_addr = 8083;
  http_addr = 8080;
  enrich_attrs = [];
  raw_zooms = 1 ∷ [];
  enrich_zooms = 1 ∷ [];
  tile_size = 256;
  object_key_prefix = lit "obj:";
  influx = none;
}

abbrev pub to_string : Document ℕ → Text
to_string d = lit "{}"

abbrev pub process : Process whole
process = record { version = lit "0.1.0"; uptime = 5; proc_status = none }

count_request_answers_example :
    (r : Response) × (s : ℕ) × (count_request env config to_string
        (lit "gone")
        process
        (Request.object (lit "v1"))
        world
      ≡ some (
        r,
        record world { metrics = record Metrics.new { http_requests = inc 0 }; upstream = s },
      ))
count_request_answers_example =
    count_request_answers env config to_string (lit "gone") process (Request.object (lit "v1"))
      world

abbrev found : List (GeoHit ℕ)
found = record { member = lit "v1"; lat = 10; lng = 200 } ∷ []

tile_geojson-features_example :
    (doc : Document ℕ) × (ds : List (Document ℕ)) × (tile_geojson env config to_string
        (lit "gone")
        process
        (lit "cars")
        1
        0
        0
        world
      ≡ some (
        record {
          status = 200;
          content_type = some (lit "application/geo+json");
          body = to_string doc;
        },
        record world {
          upstream =
              all_asked env
                (Handle.settings config)
                found
                (searched env config to_string
                  (lit "gone")
                  process
                  (lit "cars")
                  1
                  0
                  0
                  world).upstream;
        },
      ))
    × (read_collection ℕ doc ≡ some ds)
    × AllShown env
        (Handle.settings config)
        found
        (searched env config to_string (lit "gone") process (lit "cars") 1 0 0 world).upstream
        ds
unfolding parsed parse_geosearch hits_of hit_of hit_at value_to_string or_no_text value_to_f64
    or_zero
tile_geojson-features_example =
    tile_geojson-features env config to_string (lit "gone") process (lit "cars") 1 0 0 world found
      refl

-- Whole numbers that are read.
abbrev reader : F64
reader = record whole { parse_f64 = parse_uint u32_max }

abbrev reading : Env
reading = record {
  float = reader;
  mqtt = env.mqtt;
  redis = env.redis;
  to_vec = env.to_vec;
  node_id = env.node_id;
}

abbrev start : World reading
start = record {
  broker = world.broker;
  chans = world.chans;
  metrics = Metrics.new;
  upstream = 0;
  influx = none;
  clock = world.clock;
}

abbrev reader_process : Process reader
reader_process = record { version = lit "0.1.0"; uptime = 5; proc_status = none }

-- The box of the tile is 0,0,180,3.
viewport_geojson-tile_geojson_example :
    viewport_geojson reading config to_string
      (lit "gone")
      reader_process
      (lit "cars")
      (lit "0,0,180,3")
      start
    ≡ tile_geojson reading config to_string (lit "gone") reader_process (lit "cars") 1 1 0 start
unfolding bbox_for_tile parse_uint
viewport_geojson-tile_geojson_example =
    viewport_geojson-tile_geojson reading config to_string (lit "gone") reader_process (lit "cars")
      1 1 0 (lit "0") (lit "0") (lit "180") (lit "3") start (ground arith) (ground arith)
      (ground arith) (ground arith) refl refl refl refl

scrape-render_example :
    scrape (render whole (lit "0.1.0") 5 Metrics.new broker (lit "n1") none) (name_of sessions)
    ≡ some 2
unfolding size
scrape-render_example =
    scrape-render whole (lit "0.1.0") (lit "n1") 5 Metrics.new broker sessions none (ground arith)
      (ground arith) (show-Lacks b'\n' 5 (inl (omega arith))) (omega arith)

abbrev frame_of : ℕ → Option Resp2Frame
frame_of c = if ltb c 10 then some (Resp2Frame.bulk_string (lit "PING")) else none

abbrev codec : Codec
codec = record { encode_bytes = λ len frame. written (lit "+OK") }

abbrev settings : Settings
settings = record { enrich_attrs = []; enrich_zooms = 1 ∷ []; object_key_prefix = lit "obj:" }

abbrev client : Client env
client = record { world = world; written = []; writes = λ i. true }

handle_client_cut_example :
    handle_client env settings (bytewise frame_of) codec (λ f. 33) ((1 ∷ []) ∷ (2 ∷ []) ∷ []) client
    ≡ handle_client env settings (bytewise frame_of) codec (λ f. 33) ((1 ∷ 2 ∷ []) ∷ []) client
handle_client_cut_example =
    handle_client_cut env settings (bytewise frame_of) codec (λ f. 33) (1 ∷ []) (1 ∷ 2 ∷ [])
      ((2 ∷ []) ∷ []) [] client (bytewise-IsStreaming frame_of) refl
