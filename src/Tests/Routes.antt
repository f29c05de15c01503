-- ===== src/Tests/Routes.antt =====
-- The unit tests of broker.rs, with a matcher that knows `+` and `#` in the place of the library's.
use geomqtt.Base.{
  ℕ, List, [], ◌∷◌, ◌++◌, none, some, Bool, true, false, not, ◌&&◌, ◌||◌, ◌==◌, ◌≡◌, refl, Text,
  lit, text_eq, split, length,
}
use geomqtt.Base.Assoc.{insert, adjust, remove}
use geomqtt.Broker.Defs.{
  Broker, Channels, Mqtt, new, register, subscribe, unsubscribe, deregister, add_filter,
  publish_local, has_local_subscriber_for, encode_publish, deliver, visit, wants, send, drop_filter,
}

abbrev levels_match : List Text → List Text → Bool
levels_match topic [] = length topic == 0
levels_match [] (f ∷ fs) = text_eq f (lit "#")
levels_match (t ∷ ts) (f ∷ fs) =
    let rest = levels_match ts fs in
    text_eq f (lit "#") || (text_eq f (lit "+") || text_eq f t) && rest

abbrev mqtt : Mqtt
mqtt = record {
  matches = λ topic f. levels_match (split topic b'/') (split f b'/');
  write_publish = λ topic body. some (topic ++ body);
  write_connack = none;
  write_suback = λ pkid codes. none;
  write_unsuback = λ pkid. none;
}

abbrev quiet : Channels
quiet c = record { queue = []; is_open = true }

-- The number of deliveries, and what waits on two channels.
abbrev publishes : Broker → Text → ℕ → ℕ → ℕ → Bool
publishes b topic delivered in_a in_b = elim (publish_local mqtt b topic (lit "x") quiet) [
  | none ↦ false
  | some (after, n) ↦
      n == delivered && length (after 1).queue == in_a && length (after 2).queue == in_b
]

-- The receivers are drained between the messages.
abbrev publish_routes_by_filter : Bool
publish_routes_by_filter =
    let (b0, a) = register new 1 in
    let (b1, b) = register b0 2 in
    let broker = subscribe (subscribe b1 a (lit "geo/vehicles/10/+/+")) b (lit "objects/veh-42") in
    publishes broker (lit "geo/vehicles/10/544/370") 1 1 0
    && publishes broker (lit "objects/veh-42") 1 0 1

abbrev unsubscribe_and_deregister : Bool
unsubscribe_and_deregister =
    let (b0, id) = register new 1 in
    let b1 = subscribe b0 id (lit "geo/a/#") in
    let b2 = unsubscribe b1 id (lit "geo/a/#") in
    let b3 = deregister b2 id in
    publishes b1 (lit "geo/a/b/c") 1 1 0
    && publishes b2 (lit "geo/a/b/c") 0 0 0
    && publishes b3 (lit "geo/a/b/c") 0 0 0

abbrev has_local_subscriber_for_wildcards : Bool
has_local_subscriber_for_wildcards =
    let (b0, id) = register new 1 in
    let broker = subscribe b0 id (lit "geo/+/10/+/+") in
    has_local_subscriber_for mqtt broker (lit "geo/vehicles/10/544/370")
    && not (has_local_subscriber_for mqtt broker (lit "geo/vehicles/11/544/370"))

routes_pass :
    (publish_routes_by_filter && unsubscribe_and_deregister && has_local_subscriber_for_wildcards)
    ≡ true
unfolding register subscribe unsubscribe deregister add_filter insert adjust remove publish_local
    has_local_subscriber_for encode_publish deliver visit wants send text_eq split drop_filter
routes_pass = refl
