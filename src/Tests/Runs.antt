-- ===== src/Tests/Runs.antt =====
-- A run of a server: a client connects and subscribes.
use geomqtt.Base.{[], ◌∷◌, true, refl, arith, Text, lit, text_eq}
use geomqtt.Base.Assoc.{insert, adjust}
use geomqtt.Broker.Defs
use geomqtt.Broker.Defs.{Broker, add_filter}
use geomqtt.Broker.Invariant.{IsValid}
use geomqtt.Fanout.Total.{CanEncode}
use geomqtt.Mqtt.Packet.{
  Packet, handle_packet, dispatch, send_outbound, reply, add_subscription, subscribe_all,
}
use geomqtt.Node.Step.{starts, goes_on, connects, packet}
use geomqtt.Node.Run.{Run-IsValid}
use geomqtt.Tests.Requests.{config, to_string, process}
use geomqtt.Tests.Toy.{env, chans}
use geomqtt.World.{for_each}

abbrev tile : Text
tile = lit "geo/cars/1/0/0"

-- The one session, with its filter.
abbrev subscribed : Broker
subscribed = record { next_id = 2; sessions = (1, record { outbound = 12; subs = tile ∷ [] }) ∷ [] }

abbrev subscribes : Packet
subscribes = Packet.subscribe 7 (tile ∷ [])

can_encode : CanEncode env
can_encode topic body = (_, refl)

Run-IsValid_example : IsValid subscribed
unfolding handle_packet dispatch send_outbound reply add_subscription subscribe_all Defs.register
    Defs.send Defs.subscribe for_each insert adjust add_filter text_eq
Run-IsValid_example = Run-IsValid env config to_string (lit "gone") process can_encode (
    goes_on (goes_on (starts 0 chans (λ i. i)) (connects 12 (omega arith) tt))
      (packet 1 12 true subscribes _ _ refl))
