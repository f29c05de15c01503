-- ===== src/Resp/Answered.antt =====
-- resp.rs: what a client is answered.
use geomqtt.Base.{
  ℕ, suc, ◌*◌, ◌≤◌, List, [], ◌∷◌, ◌++◌, append-nil, append_assoc, some, true, ◌≡◌, refl, sym, ◌∙◌,
  Bytes, map,
}
use geomqtt.Fanout.Total.{CanEncode}
use geomqtt.Mqtt.Attributes.{Settings}
use geomqtt.Resp.Client.{Client, write_all, write_response, respond, handle_client}
use geomqtt.Resp.Encode.{Codec, HasEncoding, encode_resp2, encode_loop, encode_resp2-returns}
use geomqtt.Resp.Frame.{Resp2Frame}
use geomqtt.Resp.Handle.{handle_command}
use geomqtt.Resp.Total.{handle_command-answers}
use geomqtt.Stream.Chunks.{joined}
use geomqtt.Stream.Defs.{Decoder, IsStreaming, waiting}
use geomqtt.Stream.Items.{Holds, Handles, all_done, handles, feed-Holds}
use geomqtt.World.{Env, World, M, ◌>>=◌, pure}

-- How the answers are encoded, in how many bytes, and in how many rounds of the loop at most.
pub record Encoding (codec : Codec) : Type 0 where
  pub size : Resp2Frame → ℕ
  pub bytes_of : Resp2Frame → Bytes
  pub rounds : Resp2Frame → ℕ
  pub encodes : (frame : Resp2Frame) → HasEncoding codec frame (size frame) (bytes_of frame)
  pub enough : (frame : Resp2Frame) → size frame ≤ 64 * rounds frame

module _ (env : Env) (cfg : Settings) where
  -- The commands, one after the other, with their answers.
  unfoldable pub answers : List Resp2Frame → M env (List Resp2Frame)
  answers [] = pure []
  answers (frame ∷ frames) = do
    response ← handle_command env cfg frame
    responses ← answers frames
    pure (response ∷ responses)

  answers_cons :
      (frame response : Resp2Frame) (frames responses : List Resp2Frame) (w v u : World env)
      → handle_command env cfg frame w ≡ some (response, v)
      → answers frames v ≡ some (responses, u)
      → answers (frame ∷ frames) w ≡ some (response ∷ responses, u)
  unfolding answers
  answers_cons frame response frames responses w v u ran ran' = rw (ran, ◌>>=◌, ran') refl

module _ (env : Env) (cfg : Settings) (enc : CanEncode env) (decoder : Decoder Resp2Frame)
    (codec : Codec) (e : Encoding codec) where
  abbrev pub fuel : Resp2Frame → ℕ
  fuel frame = suc (e.rounds frame)

  -- What is left of a client after a response is written.
  abbrev answered : Resp2Frame → World env → Client env → Client env
  answered response w c = record {
    world = w;
    written = c.written ++ e.bytes_of response ∷ [];
    writes = λ i. c.writes (suc i);
  }

  respond-answered :
      (frame response : Resp2Frame) (c : Client env) (w : World env)
      → handle_command env cfg frame c.world ≡ some (response, w)
      → c.writes 0 ≡ true
      → respond env cfg decoder codec fuel frame c ≡ some (true, answered response w c)
  unfolding respond write_response write_all encode_resp2 encode_loop
  respond-answered frame response c w ran ok =
      rw
        (
          ran,
          respond,
          encode_resp2-returns codec response (e.size response) (e.rounds response)
              (e.bytes_of response) (e.encodes response) (e.enough response),
          ok,
        )
        refl

  -- The client after the frames, with the answers to them.
  record Served (frames : List Resp2Frame) (c : Client env) : Type 0 where
    after : Client env
    responses : List Resp2Frame
    ran : answers env cfg frames c.world ≡ some (responses, after.world)
    handled : Handles (respond env cfg decoder codec fuel) frames c after
    written : after.written ≡ c.written ++ map e.bytes_of responses

  serve_frames :
      (frames : List Resp2Frame) (c : Client env) → ((i : ℕ) → c.writes i ≡ true) → Served frames c
  unfolding answers
  serve_frames [] c ok = record {
    after = c;
    responses = [];
    ran = refl;
    handled = all_done c;
    written = sym (append-nil c.written);
  }
  serve_frames (frame ∷ frames) c ok =
      let ((response, w), ran) = handle_command-answers env cfg enc frame c.world in
      let next = serve_frames frames (answered response w c) (λ i. ok (suc i)) in
      record {
        after = next.after;
        responses = response ∷ next.responses;
        ran =
            answers_cons env cfg frame response frames next.responses c.world w next.after.world ran
              next.ran;
        handled =
            handles frame frames c (answered response w c) next.after
              (respond-answered frame response c w ran (ok 0)) next.handled;
        written =
            next.written
            ∙ append_assoc c.written (e.bytes_of response ∷ []) (map e.bytes_of next.responses);
      }

  -- A client whose bytes hold some commands, however they are cut into reads, is answered to each of
  -- them, in order and once, and the answers are those of the commands handled one after the other;
  -- then the connection waits for what completes the bytes that are left. This holds for a streaming
  -- decoder, as long as the writes succeed, PUBLISH packets can be encoded, every answer has an
  -- encoding and the fuel is enough for it.
  pub handle_client-answers :
      (chunk : Bytes) (chunks : List Bytes) (frames : List Resp2Frame) (left : Bytes)
      (c : Client env)
      → IsStreaming decoder
      → Holds decoder (joined (chunk ∷ chunks)) frames left
      → ((i : ℕ) → c.writes i ≡ true)
      → (responses : List Resp2Frame) × (after : Client env) × (answers env cfg frames c.world
          ≡ some (responses, after.world))
        × (handle_client env cfg decoder codec fuel (chunk ∷ chunks) c ≡ some (waiting left, after))
        × (after.written ≡ c.written ++ map e.bytes_of responses)
  unfolding handle_client
  handle_client-answers chunk chunks frames left c laws at ok =
      let served = serve_frames frames c ok in
      (
        served.responses,
        served.after,
        served.ran,
        feed-Holds decoder (respond env cfg decoder codec fuel) laws chunk chunks frames left c
            served.after at served.handled,
        served.written,
      )
