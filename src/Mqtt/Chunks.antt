-- ===== src/Mqtt/Chunks.antt =====
-- mqtt.rs: the packets of a connection do not depend on how their bytes are cut into reads.
use geomqtt.Base.{ℕ, List, [], ◌∷◌, map, Bytes, ◌≡◌, refl, sym, ◌∙◌, some}
use geomqtt.Stream.Defs.{Decoder, IsStreaming, Reading, waiting, ended, resume, feed}
use geomqtt.Stream.Chunks.{joined, feed_cut, and_then_congr}
use geomqtt.Mqtt.Packet.{Packet}
use geomqtt.Mqtt.Connection.{Connection, Event, run, step, on_packet}
use geomqtt.World.{Env, Action}

module _ (env : Env) (decoder : Decoder Packet) (session_id outbound : ℕ) where
  abbrev turns : List Bytes → Reading → Action (Connection env) Reading
  turns chunks = run (step env decoder session_id outbound) (map Event.arrived chunks)

  feed_ended :
      (chunks : List Bytes) (c : Connection env)
      → feed decoder (on_packet env decoder session_id outbound) ended chunks c ≡ some (ended, c)
  unfolding feed resume
  feed_ended [] c = refl
  feed_ended (chunk ∷ chunks) c = feed_ended chunks c

  turns-feed :
      (chunks : List Bytes) (r : Reading) (c : Connection env)
      → turns chunks r c ≡ feed decoder (on_packet env decoder session_id outbound) r chunks c
  unfolding run step feed
  turns-feed [] r c = refl
  turns-feed (chunk ∷ chunks) ended c = sym (feed_ended (chunk ∷ chunks) c)
  turns-feed (chunk ∷ chunks) (waiting buf) c =
      and_then_congr
        (resume decoder (on_packet env decoder session_id outbound) (waiting buf) chunk c) _ _
        (turns-feed chunks)

  -- Two ways to cut the same bytes into reads have the same packets handled in the same order, with
  -- the same outcome, as long as the decoder is a streaming one.
  pub arrived_cut :
      (buf a b : Bytes) (cs ds : List Bytes) (c : Connection env)
      → IsStreaming decoder
      → joined (a ∷ cs) ≡ joined (b ∷ ds)
      → run (step env decoder session_id outbound) (map Event.arrived (a ∷ cs)) (waiting buf) c
        ≡ run (step env decoder session_id outbound) (map Event.arrived (b ∷ ds)) (waiting buf) c
  arrived_cut buf a b cs ds c laws h =
      turns-feed (a ∷ cs) (waiting buf) c
      ∙ feed_cut decoder (on_packet env decoder session_id outbound) laws (waiting buf) a b cs ds c
          h
      ∙ sym (turns-feed (b ∷ ds) (waiting buf) c)
