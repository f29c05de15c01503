-- ===== src/Tests/Commands.antt =====
-- Commands of a client, and what the session that looks on receives of them.
use geomqtt.Base.{
  pos, [], ◌++◌, Option, some, false, text_eq, ◌≡◌, refl, Text, lit, from_utf8_lossy,
}
use geomqtt.Base.Assoc.{lookup}
use geomqtt.Fanout.Received.{write_packets}
use geomqtt.Mqtt.Attributes.{or_empty}
use geomqtt.Payload.Attrs.{Attrs}
use geomqtt.Base.{ℕ, List, ◌∷◌, true, map, arith, strip_prefix}
use geomqtt.Broker.Defs.{Session, wants}
use geomqtt.Topic.{object_topic, inset_key}
use geomqtt.Payload.Attrs.{Value, is_empty}
use geomqtt.Fanout.Defs.{on_attr_tile}
use geomqtt.Fanout.Attributes.{told_places, place_packets, on_attr_tile-place_packets}
use geomqtt.Base.{inl}
use geomqtt.Mqtt.Attributes.{Settings}
use geomqtt.Fanout.Objects.{object_packet}
use geomqtt.Payload.Attrs
use geomqtt.Payload.Defs.{ObjectPayload}
use geomqtt.Resp.Hashes.{last_value, hset, handle_command-object_packet}
use geomqtt.Broker.Invariant.{IsValid}
use geomqtt.Resp.Deleted.{deletions, handle_command-deletions}
use geomqtt.Resp.Answered.{Encoding, answers, fuel, handle_client-answers}
use geomqtt.Resp.Client.{Client, handle_client}
use geomqtt.Resp.Encode.{Codec, written}
use geomqtt.Stream.Defs.{waiting}
use geomqtt.Stream.Items.{nothing, more}
use geomqtt.Tests.Bytewise.{bytewise, bytewise-IsStreaming}
use geomqtt.Resp.Args.{to_ascii_uppercase, frame_to_args, is_flag, coordinate}
use geomqtt.Resp.Convert.{resp3_to_resp2}
use geomqtt.Resp.Frame.{Resp2Frame, Resp2Frames}
use geomqtt.Resp.Handle.{answer_frame, fanout, handle_command}
use geomqtt.Resp.Received.{Reads, answered_at, handle_command-write_packets}
use geomqtt.Tests.Sessions.{session, can_encode, broker-IsValid}
use geomqtt.Tests.Toy.{env, world}
use geomqtt.Tests.Writes.{settings}
use geomqtt.World.{World}

abbrev bulk : Text → Resp2Frames → Resp2Frames
bulk t rest = Resp2Frames.cons (Resp2Frame.bulk_string t) rest

abbrev geoadd : Resp2Frame
geoadd = Resp2Frame.array (
    bulk (lit "geoadd")
      (bulk (lit "cars") (bulk (lit "10") (bulk (lit "20") (bulk (lit "v1") Resp2Frames.nil)))))

is_geoadd : to_ascii_uppercase (lit "geoadd") ≡ lit "GEOADD"
unfolding to_ascii_uppercase
is_geoadd = refl

no_flag : is_flag (lit "10") ≡ false
unfolding is_flag text_eq
no_flag = refl

handle_command-write_packets_example :
    (attrs : Option Attrs) × (w' : World env) × Reads env settings can_encode 1 session
      (lit "v1")
      attrs
      (answered_at env settings can_encode 1 session
        (lit "geoadd")
        (lit "cars")
        (lit "10")
        (lit "20")
        (lit "v1")
        is_geoadd
        no_flag
        world)
    × (handle_command env settings geoadd world ≡ some (Resp2Frame.integer (pos 1), w'))
    × ((w'.chans 10).queue
        ≡ []
          ++ write_packets env can_encode 1 session
              (fanout env settings)
              (lit "cars")
              (lit "v1")
              (some (0, 0))
              (200, 200)
              (or_empty attrs)
              world.clock)
unfolding frame_to_args lookup answer_frame from_utf8_lossy resp3_to_resp2 coordinate text_eq
handle_command-write_packets_example =
    handle_command-write_packets env settings can_encode 1 session (lit "geoadd") (lit "cars")
      (lit "10") (lit "20") (lit "v1") is_geoadd no_flag geoadd (some (0, 0)) [] world refl refl
      (λ h. h) broker-IsValid refl refl

-- Every frame is encoded in the same way.
abbrev codec : Codec
codec = record { encode_bytes = λ len frame. written (lit "+OK") }

abbrev encoding : Encoding codec
encoding = record {
  size = λ frame. 0;
  bytes_of = λ frame. lit "+OK";
  rounds = λ frame. 0;
  encodes = λ frame. record { fits = λ len h. refl; is_short = λ len h. absurd (omega arith) };
  enough = λ frame. omega arith;
}

abbrev frame_of : ℕ → Option Resp2Frame
frame_of c = some (Resp2Frame.bulk_string (lit "PING"))

abbrev client : Client env
client = record { world = world; written = []; writes = λ i. true }

abbrev ping : Resp2Frame
ping = Resp2Frame.bulk_string (lit "PING")

-- Two commands in two reads.
handle_client-answers_example :
    (responses : List Resp2Frame) × (after : Client env) × (answers env settings
        (ping ∷ ping ∷ [])
        world
      ≡ some (responses, after.world))
    × (handle_client env settings
          (bytewise frame_of)
          codec
          (fuel env settings can_encode (bytewise frame_of) codec encoding)
          ((1 ∷ []) ∷ (2 ∷ []) ∷ [])
          client
        ≡ some (waiting [], after))
    × (after.written ≡ [] ++ map encoding.bytes_of responses)
handle_client-answers_example =
    handle_client-answers env settings can_encode (bytewise frame_of) codec encoding (1 ∷ [])
      ((2 ∷ []) ∷ []) (ping ∷ ping ∷ []) [] client (bytewise-IsStreaming frame_of)
      (more _ _ _ _ _ refl (more _ _ _ _ _ refl (nothing _ refl))) (λ i. refl)

-- A session that looks at an object.
abbrev watcher : Session
watcher = record { outbound = 10; subs = lit "objects/v1" ∷ [] }

abbrev watched : World env
watched = record world { broker = record { next_id = 2; sessions = (1, watcher) ∷ [] } }

watched-IsValid : IsValid watched.broker
watched-IsValid = record {
  ids_below = ground arith;
  ids_apart = ground arith;
  channels_apart = ground arith;
  filters_apart = ground arith;
}

abbrev keys : List Text
keys = lit "other" ∷ lit "obj:v1" ∷ []

abbrev del : Resp2Frame
del = Resp2Frame.array (bulk (lit "del") (bulk (lit "other") (bulk (lit "obj:v1") Resp2Frames.nil)))

is_del : to_ascii_uppercase (lit "del") ≡ lit "DEL"
unfolding to_ascii_uppercase
is_del = refl

handle_command-deletions_example :
    (w' : World env) × (handle_command env settings del watched
      ≡ some (Resp2Frame.integer (pos 1), w'))
    × ((w'.chans 10).queue
        ≡ []
          ++ deletions env settings can_encode 1 watcher
              (lit "other" ∷ lit "obj:v1" ∷ [])
              watched.clock)
unfolding frame_to_args lookup answer_frame from_utf8_lossy resp3_to_resp2 text_eq
handle_command-deletions_example =
    handle_command-deletions env settings can_encode 1 watcher (lit "del") keys is_del del watched
      refl (λ h. h) watched-IsValid refl refl

-- What is put into the channel is one packet.
one_packet :
    deletions env settings (λ topic body. (_, refl)) 1 watcher keys watched.clock
    ≡ (lit "objects/v1" ++ lit "{}") ∷ []
unfolding strip_prefix text_eq wants object_topic
one_packet = refl

abbrev attrs : Attrs
attrs = (lit "k", Value.string (lit "v")) ∷ []

on_attr_tile-place_packets_example :
    (w' : World env) × (on_attr_tile env (fanout env settings) (lit "v1") attrs world
      ≡ some (tt, w'))
    × ((w'.chans 10).queue
        ≡ []
          ++ place_packets env can_encode 1 session
              (lit "v1")
              attrs
              (fanout env settings)
              (lit "cars" ∷ [])
              world.clock
              (env.redis.smembers (inset_key (lit "v1")) 0).0)
    × (w'.upstream
        ≡ told_places env can_encode 1 session
            (lit "v1")
            attrs
            (fanout env settings)
            (lit "cars" ∷ [])
            world.clock
            (env.redis.smembers (inset_key (lit "v1")) 0).0)
unfolding is_empty lookup
on_attr_tile-place_packets_example =
    on_attr_tile-place_packets env can_encode 1 session (lit "v1") attrs (fanout env settings)
      (lit "cars" ∷ []) world refl refl broker-IsValid refl refl

abbrev hset_frame : Resp2Frame
hset_frame =
    Resp2Frame.array
      (bulk (lit "HSET") (bulk (lit "obj:v1") (bulk (lit "k") (bulk (lit "v") Resp2Frames.nil))))

-- No attributes go on tiles.
abbrev plain : Settings
plain = record settings { enrich_attrs = [] }

is_hset : to_ascii_uppercase (lit "HSET") ≡ lit "HSET"
unfolding to_ascii_uppercase
is_hset = refl

handle_command-object_packet_example :
    (attrs : Attrs) × (w' : World env) × ((j : Text)
      → Attrs.lookup j attrs ≡ last_value j (lit "k" ∷ lit "v" ∷ []))
    × (handle_command env plain hset_frame watched ≡ some (Resp2Frame.integer (pos 1), w'))
    × ((w'.chans 10).queue
        ≡ []
          ++ object_packet env can_encode 1 watcher
              (lit "v1")
              (ObjectPayload.attr (lit "v1") attrs 0))
unfolding frame_to_args lookup answer_frame from_utf8_lossy resp3_to_resp2 text_eq strip_prefix
handle_command-object_packet_example =
    handle_command-object_packet env plain can_encode 1 watcher (lit "HSET") (lit "HSET") false
      is_hset hset (lit "obj:v1") (lit "v1") (lit "k" ∷ lit "v" ∷ []) hset_frame watched refl refl
      (inl refl) (λ h. h) watched-IsValid refl refl
