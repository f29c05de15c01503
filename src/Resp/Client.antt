-- ===== src/Resp/Client.antt =====
-- resp.rs: `handle_client`, the loop over what a client sends.
use geomqtt.Base.{
  ℕ, suc, List, [], ◌∷◌, ◌++◌, none, some, Bool, true, false, Bytes, ◌≡◌, if◌then◌else◌,
}
use geomqtt.Mqtt.Attributes.{Settings}
use geomqtt.Resp.Frame.{Resp2Frame}
use geomqtt.Resp.Handle.{handle_command}
use geomqtt.Resp.Encode.{Codec, encode_resp2}
use geomqtt.Stream.Defs.{Decoder, IsStreaming, Reading, waiting, feed}
use geomqtt.Stream.Chunks.{joined, feed_cut}
use geomqtt.World.{Env, World, Action}

-- A client's connection: `written` is what the socket took, `writes` whether the writes that are
-- still to come succeed.
pub record Client (env : Env) : Type 0 where
  pub world : World env
  pub written : List Bytes
  pub writes : ℕ → Bool

module _ (env : Env) (cfg : Settings) (decoder : Decoder Resp2Frame) (codec : Codec)
    (fuel : Resp2Frame → ℕ) where
  -- `write_all`, and whether it succeeds
  unfoldable pub write_all : Bytes → Action (Client env) Bool
  write_all out c =
      if c.writes 0
      then some (true, record c { written = c.written ++ out ∷ []; writes = λ i. c.writes (suc i) })
      else some (false, record c { writes = λ i. c.writes (suc i) })

  -- The response is encoded, unless that takes more rounds than the fuel, and written.
  unfoldable pub write_response : Resp2Frame → Action (Client env) Bool
  write_response response c = elim (encode_resp2 codec response (fuel response)) [
    | none ↦ none
    | some out ↦ write_all out c
  ]

  unfoldable pub respond : Resp2Frame → Action (Client env) Bool
  respond frame c = elim (handle_command env cfg frame c.world) [
    | none ↦ none
    | some (response, world) ↦ write_response response (record c { world = world })
  ]

  -- The chunks that are read, up to the end of what the client sends.
  unfoldable pub handle_client : List Bytes → Action (Client env) Reading
  handle_client chunks = feed decoder respond (waiting []) chunks

  -- Commands may be pipelined, and cut into reads anywhere: two ways to cut the same bytes have the
  -- same commands handled in the same order, with the same responses written and the same outcome,
  -- as long as the decoder is a streaming one.
  pub handle_client_cut :
      (a b : Bytes) (cs ds : List Bytes) (c : Client env)
      → IsStreaming decoder
      → joined (a ∷ cs) ≡ joined (b ∷ ds)
      → handle_client (a ∷ cs) c ≡ handle_client (b ∷ ds) c
  unfolding handle_client
  handle_client_cut a b cs ds c laws h = feed_cut decoder respond laws (waiting []) a b cs ds c h
