-- ===== src/World.antt =====
-- What the handlers share, and how they act on it. An action may panic, which ends its task:
-- `none`. The external parts are parameters.
pub mod Total
pub mod Quiet
use geomqtt.Base.{ℕ, suc, Option, none, some, Bool, List, [], ◌∷◌, Text, Bytes}
use geomqtt.Float.{F64}
use geomqtt.Payload.Defs.{Json}
use geomqtt.Broker.Defs
use geomqtt.Broker.Defs.{Broker, Channels, Mqtt}
use geomqtt.Base.Results.{Result}
use geomqtt.Mqtt.Reply.{FredValue}
use geomqtt.Resp.Frame.{Resp3Frame}
use geomqtt.Metrics.{Metrics}
use geomqtt.Influx.Queue.{Queue}

-- The upstream Redis: each command acts on a state of its own, which may hold anything, other
-- clients included, and answers or fails.
pub record Redis (F : Type 0) : Type 1 where
  pub State : Type 0
  pub publish : Text → Bytes → State → State × Bool
  pub sadd : Text → Text → State → State × Bool
  pub srem : Text → Text → State → State × Bool
  pub smembers : Text → State → State × Option (List Text)
  pub geopos : Text → List Text → State → State × Option (List (Option (F × F)))
  pub hmget : Text → List Text → State → State × Option (List (Option Text))
  pub hgetall : Text → State → State × Option (List (Text × Text))
  -- the members in a box, by its centre, its width and its height in metres, the nearest first
  pub geosearch : Text → F → F → F → F → State → State × Option (FredValue F)
  pub get : Text → State → State × Option (Option Text)
  -- any command, with its answer or the print of the error
  pub custom_raw : List Text → State → State × Result Text (Resp3Frame F)

pub record Env : Type 1 where
  pub float : F64
  pub mqtt : Mqtt
  pub redis : Redis (F64.F float)
  -- `serde_json::to_vec` of an object
  pub to_vec : List (Text × Json (F64.F float)) → Bytes
  pub node_id : Text

pub record World (env : Env) : Type 0 where
  pub broker : Broker
  pub chans : Channels
  pub metrics : Metrics
  pub upstream : env.redis.State
  -- the queue of the InfluxDB sink, if it is enabled
  pub influx : Option Queue
  -- the readings of the clock that are still to come
  pub clock : ℕ → ℕ

-- An action on a state: `none` is a panic.
abbrev pub Action : Type 0 → Type 0 → Type 0
Action W A = W → Option (A × W)

infixl 5 ◌>>=◌ ◌>>◌
abbrev pub ◌>>=◌ : {W A B : Type 0} → Action W A → (A → Action W B) → Action W B
◌>>=◌ m f w = elim (m w) [ none ↦ none | some (a, w') ↦ f a w' ]

abbrev pub ◌>>◌ : {W A B : Type 0} → Action W A → Action W B → Action W B
m >> k = m >>= λ _. k

abbrev pub pure : {W A : Type 0} → A → Action W A
pure a w = some (a, w)

abbrev pub gets : {W A : Type 0} → (W → A) → Action W A
gets f w = some (f w, w)

-- What an index or a slice gives, or a panic if it is out of range.
abbrev pub or_panic : {W A B : Type 0} → Option A → (A → Action W B) → Action W B
or_panic o f w = elim o [ none ↦ none | some a ↦ f a w ]

-- A loop over a list.
unfoldable pub for_each : {W A : Type 0} → List A → (A → Action W (Unit {0})) → Action W (Unit {0})
for_each [] body w = some (tt, w)
for_each (x ∷ xs) body w = elim (body x w) [ none ↦ none | some (_, w') ↦ for_each xs body w' ]

module _ (env : Env) where
  abbrev pub M : Type 0 → Type 0
  M A = Action (World env) A

  -- a counter is raised
  abbrev pub count : (Metrics → Metrics) → M (Unit {0})
  count f w = some (tt, record w { metrics = f w.metrics })

  -- `now_ms()`
  unfoldable pub now_ms : M ℕ
  now_ms w = some (w.clock 0, record w { clock = λ i. w.clock (suc i) })

  -- a command to Redis
  abbrev pub upstream : {A : Type 0} → (env.redis.State → env.redis.State × A) → M A
  upstream command w =
      let answer = command w.upstream in some (answer.1, record w { upstream = answer.0 })

  -- `broker.publish_local`
  unfoldable pub publish_local : Text → Bytes → M ℕ
  publish_local topic body w = elim (Defs.publish_local env.mqtt w.broker topic body w.chans) [
    | none ↦ none
    | some (chans, delivered) ↦ some (delivered, record w { chans = chans })
  ]

  -- `broker.send_direct`
  unfoldable pub send_direct : ℕ → Bytes → M (Unit {0})
  send_direct id bytes w =
      some (tt, record w { chans = Defs.send_direct w.broker id bytes w.chans })
