-- ===== src/Tests/Connections.antt =====
-- Connections over a decoder whose packets are single bytes.
use geomqtt.Base.{
  ℕ, List, [], ◌∷◌, Option, none, some, Bool, true, false, ◌≡◌, refl, Text, Bytes, lit, text_eq,
  map, ◌==◌, if◌then◌else◌,
}
use geomqtt.Base.Assoc.{insert, adjust, lookup}
use geomqtt.Broker.Defs
use geomqtt.Broker.Defs.{Channels, add_filter}
use geomqtt.Broker.Table.{is_registered, holds}
use geomqtt.Fanout.Total.{CanEncode}
use geomqtt.Mqtt.Attributes.{Settings}
use geomqtt.Mqtt.Packet.{
  Packet, Handled, goes_on, handle_packet, dispatch, reply, send_outbound, add_subscription,
  subscribe_all,
}
use geomqtt.Mqtt.Connection.{
  Connection, Event, run, step, connected, handle_tcp, pop, write_all, handled, on_packet,
  after_write, write_next, meanwhile,
}
use geomqtt.Mqtt.Returns.{handle_tcp_closed}
use geomqtt.Mqtt.Table.{after_packet, handle_packet-holds}
use geomqtt.Mqtt.Chunks.{arrived_cut}
use geomqtt.Mqtt.Appends.{Extends, Extends-refl}
use geomqtt.Mqtt.Flow.{flow}
use geomqtt.Mqtt.Order.{run-flow}
use geomqtt.Mqtt.Geo.{
  GeoHit, geosearch_box, parsed, parse_geosearch, hits_of, hit_of, hit_at, value_to_string,
  or_no_text, value_to_f64, or_zero, box_of,
}
use geomqtt.Mqtt.Snapshot.{snapshot_tile}
use geomqtt.Topic.{tile_topic}
use geomqtt.Mqtt.Replay.{AllShow, Got, snapshot_tile-replays}
use geomqtt.Stream.Defs.{Decoder, Reading, waiting, ended, drain, read, resume}
use geomqtt.Tests.Bytewise.{bytewise, bytewise-IsStreaming}
use geomqtt.Tests.Toy.{env, world}
use geomqtt.World.{World, for_each}

abbrev tile : Text
tile = lit "geo/cars/1/0/0"

abbrev packet_of : ℕ → Option Packet
packet_of c =
    if c == 1
    then some Packet.connect
    else if c == 2
    then some (Packet.subscribe 7 (tile ∷ []))
    else if c == 3
    then some Packet.disconnect
    else none

abbrev decoder : Decoder Packet
decoder = bytewise packet_of

abbrev always : ℕ → Bool
always i = true

can_encode : CanEncode env
can_encode topic body = (_, refl)

abbrev after : Option (Reading × Connection env) → Connection env
after none = connected env decoder 12 always world
after (some (r, c)) = c

-- A client that connects and subscribes, and goes away; its session is the third.
abbrev visit : List (Event env)
visit = Event.arrived (1 ∷ 2 ∷ []) ∷ Event.outgoing ∷ []

handle_tcp_closed_example :
    (after : Connection env) × (handle_tcp env decoder 12 always
        (Event.arrived (1 ∷ 2 ∷ []) ∷ Event.outgoing ∷ Event.closed ∷ Event.arrived (1 ∷ []) ∷ [])
        world
      ≡ some (ended, after))
    × ((f : Text)
        → (is_registered after.world.broker 3 ≡ false) × (holds after.world.broker 3 f ≡ false))
    × ((after.world.chans 12).is_open ≡ false)
handle_tcp_closed_example =
    handle_tcp_closed env can_encode decoder 12 always visit (Event.arrived (1 ∷ []) ∷ []) world

-- Session 2 subscribes.
abbrev subscribed : Option (Handled × World env) → World env
subscribed none = world
subscribed (some (r, w)) = w

abbrev asked : World env
asked = subscribed (handle_packet env 2 11 true (Packet.subscribe 7 (tile ∷ [])) world)

handle_packet-holds_example :
    (is_registered asked.broker 2 ≡ is_registered world.broker 2)
    × (holds asked.broker 2 tile
        ≡ after_packet 2 true
            (Packet.subscribe 7 (tile ∷ []))
            2
            (is_registered world.broker 2)
            (holds world.broker 2)
            tile)
unfolding handle_packet dispatch send_outbound reply add_subscription subscribe_all Defs.send
    Defs.subscribe for_each insert adjust add_filter text_eq
handle_packet-holds_example =
    handle_packet-holds env 2 11 true (Packet.subscribe 7 (tile ∷ [])) world asked
      (goes_on true (tile ∷ [])) 2 tile refl

abbrev opened : Connection env
opened = connected env decoder 12 always world

arrived_cut_example :
    run (step env decoder 3 12) (map Event.arrived ((1 ∷ []) ∷ (2 ∷ []) ∷ [])) (waiting []) opened
    ≡ run (step env decoder 3 12) (map Event.arrived ((1 ∷ 2 ∷ []) ∷ [])) (waiting []) opened
arrived_cut_example =
    arrived_cut env decoder 3 12 [] (1 ∷ []) (1 ∷ 2 ∷ []) ((2 ∷ []) ∷ []) [] opened
      (bytewise-IsStreaming packet_of) refl

-- The CONNACK is written, the SUBACK waits.
abbrev turns : List (Event env)
turns = Event.arrived (1 ∷ 2 ∷ []) ∷ Event.outgoing ∷ Event.elsewhere (λ w. w) ∷ []

abbrev still_open : Connection env
still_open = after (run (step env decoder 3 12) turns (waiting []) opened)

run-flow_example : Extends (flow env decoder 3 12 opened) (flow env decoder 3 12 still_open)
unfolding connected run step resume read drain on_packet handled handle_packet dispatch
    send_outbound reply add_subscription subscribe_all Defs.register Defs.send Defs.subscribe
    write_next write_all after_write pop for_each insert adjust add_filter text_eq meanwhile
run-flow_example =
    run-flow env decoder 3 12 turns [] [] opened still_open
      (tt, (tt, ((λ w. Extends-refl (w.chans 12).queue), tt))) refl

abbrev cfg : Settings
cfg = record { enrich_attrs = []; enrich_zooms = 1 ∷ []; object_key_prefix = lit "obj:" }

abbrev found : List (GeoHit ℕ)
found = record { member = lit "v1"; lat = 10; lng = 200 } ∷ []

snapshot_tile-replays_example :
    (packets : List Bytes) × (w' : World env) × (snapshot_tile env cfg (lit "cars") 1 0 0 1 world
      ≡ some (true, w'))
    × AllShow env cfg can_encode (tile_topic (lit "cars") 1 0 0) found packets
    × Got env cfg can_encode 10 packets world w'
unfolding geosearch_box parsed parse_geosearch hits_of hit_of hit_at value_to_string or_no_text
    value_to_f64 or_zero box_of lookup
snapshot_tile-replays_example =
    snapshot_tile-replays env cfg can_encode (lit "cars") 1 0 0 1
      (record { outbound = 10; subs = tile ∷ [] }) world (record world { upstream = 1 }) found refl
      refl refl
