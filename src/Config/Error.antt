-- ===== src/Config/Error.antt =====
-- The errors of config.rs, each with the text that it quotes, and the context that `from_env` adds.
use geomqtt.Base.{ℕ, Text}

pub data ConfigError : Type 0 where
  bad_tile_size : ℕ → ConfigError
  not_a_number bad_range reversed_range bad_zoom bad_address : Text → ConfigError
