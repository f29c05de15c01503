-- ===== src/Config/FromEnv.antt =====
-- config.rs: `Config::from_env`. The environment is a function, `none` for a variable that is not
-- set or is not text; socket addresses are read by the standard library.
use geomqtt.Base.{
  ℕ, List, [], ◌∷◌, Option, none, some, map, filter, Text, String, lit, trim, split,
  trim_end_matches,
}
use geomqtt.Base.Results.{Result, ok, err, ◌>>=◌}
use geomqtt.Config.Error.{ConfigError, bad_address}
use geomqtt.Config.TileSize.{parse_tile_size, zoom_offset_for_tile_size}
use geomqtt.Config.Zooms.{is_filled, parse_zoom_list, effective_zooms}

pub record InfluxSettings : Type 0 where
  pub url : Text
  pub token : Text
  pub org : Text
  pub bucket : Text

pub record Config (SocketAddr : Type 0) : Type 0 where
  pub redis_url : Text
  pub resp_addr : SocketAddr
  pub mqtt_addr : SocketAddr
  pub mqtt_ws_addr : SocketAddr
  pub http_addr : SocketAddr
  pub enrich_attrs : List Text
  pub raw_zooms : List ℕ
  pub enrich_zooms : List ℕ
  pub tile_size : ℕ
  pub object_key_prefix : Text
  pub influx : Option InfluxSettings

unfoldable pub csv : Text → List Text
unfolding is_filled
csv s = filter is_filled (map trim (split s b','))

abbrev pub Environment : Type 0
Environment = Text → Option Text

unfoldable pub env_or : Environment → String → String → Text
env_or env key default = elim (env (lit key)) [ none ↦ lit default | some v ↦ v ]

unfoldable pub influx_settings : Environment → Option InfluxSettings
influx_settings env = elim (env_or env "GEOMQTT_INFLUX_URL" "") [
  | [] ↦ none
  | c ∷ url ↦ some (record {
    url = trim_end_matches (c ∷ url) b'/';
    token = env_or env "GEOMQTT_INFLUX_TOKEN" "";
    org = env_or env "GEOMQTT_INFLUX_ORG" "";
    bucket = env_or env "GEOMQTT_INFLUX_BUCKET" "";
  })
]

module _ {SocketAddr : Type 0} (parse_socket : Text → Option SocketAddr) (env : Environment) where
  unfoldable pub parse_addr : String → String → Result ConfigError SocketAddr
  parse_addr key default = elim (parse_socket (env_or env key default)) [
    | none ↦ err (bad_address (lit key))
    | some a ↦ ok a
  ]

  unfoldable pub from_env : Result ConfigError (Config SocketAddr)
  from_env = do
    tile_size ← parse_tile_size (env_or env "GEOMQTT_TILE_SIZE" "256")
    let zoom_offset = zoom_offset_for_tile_size tile_size
    raw_zooms ← parse_zoom_list (env_or env "GEOMQTT_ENRICH_ZOOMS" "6-12")
    let enrich_zooms = effective_zooms zoom_offset raw_zooms
    let influx = influx_settings env
    resp_addr ← parse_addr "GEOMQTT_RESP_ADDR" "0.0.0.0:6380"
    mqtt_addr ← parse_addr "GEOMQTT_MQTT_ADDR" "0.0.0.0:1883"
    mqtt_ws_addr ← parse_addr "GEOMQTT_MQTT_WS_ADDR" "0.0.0.0:8083"
    http_addr ← parse_addr "GEOMQTT_HTTP_ADDR" "0.0.0.0:8080"
    ok (record {
      redis_url = env_or env "GEOMQTT_REDIS_URL" "redis://127.0.0.1:6379";
      resp_addr = resp_addr;
      mqtt_addr = mqtt_addr;
      mqtt_ws_addr = mqtt_ws_addr;
      http_addr = http_addr;
      enrich_attrs = csv (env_or env "GEOMQTT_ENRICH_ATTRS" "");
      raw_zooms = raw_zooms;
      enrich_zooms = enrich_zooms;
      tile_size = tile_size;
      object_key_prefix = env_or env "GEOMQTT_OBJECT_KEY_PREFIX" "obj:";
      influx = influx;
    })
