-- ===== src/Tests/Toy.antt =====
-- A small environment: whole numbers for floats, a Redis that answers everything but `FAIL`, and
-- a broker with two sessions.
use geomqtt.Base.{
  ℤ, pos, negsuc, ℕ, ◌+◌, ◌-◌, ◌*◌, ◌/◌, ◌^◌, ◌≤◌, List, [], ◌∷◌, ◌++◌, some, true, ◌≡◌, inr, arith,
  Text, lit, show, text_eq, min, max, map, u32_max, if◌then◌else◌,
}
use native.Mathlib.Nat.{pow-le-pow_right}
use geomqtt.Base.Results.{Result, ok, err}
use geomqtt.Float.{F64, F64Laws}
use geomqtt.Resp.Frame.{Resp3Frame}
use geomqtt.Broker.Defs.{Broker, Channels, Mqtt}
use geomqtt.Metrics
use geomqtt.Mqtt.Reply.{FredValue, FredValues}
use geomqtt.World.{Env, Redis, World}

abbrev magnitude : ℤ → ℕ
magnitude (pos n) = n
magnitude (negsuc n) = n + 1

abbrev pub whole : F64
whole = record {
  F = ℕ;
  decimal = λ m p. m / 10 ^ p;
  of_u32 = λ n. n;
  of_i64 = magnitude;
  square = λ a. a * a;
  powi2 = λ z. 2 ^ z;
  add = λ a b. a + b;
  sub = λ a b. a - b;
  mul = λ a b. a * b;
  div = λ a b. a / b;
  neg = λ a. 0;
  floor = λ a. a;
  clamp = λ x lo hi. min (max x lo) hi;
  as_u32 = λ x. min x u32_max;
  pi = 3;
  to_radians = λ a. a;
  to_degrees = λ a. a;
  sin = λ a. a;
  cos = λ a. 1;
  tan = λ a. a;
  asin = λ a. a;
  atan = λ a. a;
  sinh = λ a. a;
  ln = λ a. a;
  sqrt = λ a. a;
  is_finite = λ a. true;
  show_f64 = show;
  parse_f64 = λ s. some 200;
}

pow_le : (z : ℕ) → z ≤ 32 → 2 ^ z ≤ 2 ^ 32
pow_le z h = pow-le-pow_right (omega arith) h

whole-as_u32 : (z : ℕ) → z ≤ 32 → min (2 ^ z - 1) u32_max ≡ 2 ^ z - 1
whole-as_u32 z h = omega (arith, pow_le z h)

pub whole-laws : F64Laws whole
whole-laws = record {
  Le = λ a b. a ≤ b;
  IsNan = λ a. ⊥;
  clamp_range = λ x lo hi h. inr (omega arith, omega arith);
  as_u32_mono = λ x y h. omega arith;
  as_u32_nan = λ x h. elim h [ ];
  zero-le-powi2 = λ z. omega arith;
  as_u32-powi2 = whole-as_u32;
}

abbrev pub mqtt : Mqtt
mqtt = record {
  matches = λ topic f. text_eq topic f;
  write_publish = λ topic body. some (topic ++ body);
  write_connack = some (lit "connack");
  write_suback = λ pkid codes. some (lit "suback");
  write_unsuback = λ pkid. some (lit "unsuback");
}

-- One member at a place.
abbrev hits : FredValue ℕ
hits = FredValue.array (
    FredValues.cons
      (FredValue.array (
        FredValues.cons (FredValue.string (lit "v1")) (
          FredValues.cons
            (FredValue.array (
              FredValues.cons (FredValue.double 200)
                (FredValues.cons (FredValue.double 10) FredValues.nil)))
            FredValues.nil)))
      FredValues.nil)

abbrev answer : List Text → Result Text (Resp3Frame ℕ)
answer [] = err (lit "no command")
answer (cmd ∷ args) =
    if text_eq cmd (lit "FAIL") then err (lit "refused") else ok (Resp3Frame.number (pos 1))

-- The state counts the commands.
abbrev redis : Redis ℕ
redis = record {
  State = ℕ;
  publish = λ channel body s. (s + 1, true);
  sadd = λ key member s. (s + 1, true);
  srem = λ key member s. (s + 1, true);
  smembers = λ key s. (s + 1, some (lit "cars" ∷ []));
  geopos = λ key members s. (s + 1, some (map (λ m. some (0, 0)) members));
  hmget = λ key fields s. (s + 1, some (map (λ f. some (lit "v")) fields));
  hgetall = λ key s. (s + 1, some ((lit "k", lit "v") ∷ []));
  geosearch = λ key lon lat width height s. (s + 1, some hits);
  get = λ key s. (s + 1, some (some (lit "200,10")));
  custom_raw = λ args s. (s + 1, answer args);
}

abbrev pub env : Env
env = record {
  float = whole;
  mqtt = mqtt;
  redis = redis;
  to_vec = λ fields. lit "{}";
  node_id = lit "n1";
}

-- Session 1 looks at a tile, session 2 at nothing.
abbrev pub broker : Broker
broker = record {
  next_id = 3;
  sessions =
      (1, record { outbound = 10; subs = lit "geo/cars/1/0/0" ∷ [] })
      ∷ (2, record { outbound = 11; subs = [] })
      ∷ [];
}

abbrev pub chans : Channels
chans c = record { queue = []; is_open = true }

abbrev pub world : World env
world = record {
  broker = broker;
  chans = chans;
  metrics = Metrics.new;
  upstream = 0;
  influx = some (record { lines = []; is_open = true });
  clock = λ i. i;
}
