-- ===== src/Broker/Defs.antt =====
-- broker.rs: sessions, their filters, and delivery. A sender is the number of its channel; a
-- channel is the queue between a session's senders and its connection.
use geomqtt.Base.{
  ℕ, ◌+◌, ◌%◌, ◌^◌, List, [], ◌∷◌, ◌++◌, Option, none, some, Bool, true, false, not, any, filter,
  length, Bytes, Text, text_eq, ◌==◌, if◌then◌else◌,
}
use geomqtt.Base.Assoc.{lookup, insert, remove, adjust}

-- An unbounded channel; it is open as long as its receiver lives.
pub record Channel : Type 0 where
  pub queue : List Bytes
  pub is_open : Bool

abbrev pub Channels : Type 0
Channels = ℕ → Channel

-- `sender.send(bytes)`, and whether it is `Ok`.
unfoldable pub send : ℕ → Bytes → Channels → Channels × Bool
send c bytes chans =
    if (chans c).is_open
    then (
      (λ d.
          if d == c
          then record { queue = (chans c).queue ++ bytes ∷ []; is_open = true }
          else chans d),
      true,
    )
    else (chans, false)

pub record Session : Type 0 where
  pub outbound : ℕ
  pub subs : List Text

pub record Broker : Type 0 where
  pub next_id : ℕ
  pub sessions : List (ℕ × Session)

abbrev pub new : Broker
new = record { next_id = 1; sessions = [] }

abbrev pub u64_mod : ℕ
u64_mod = 2 ^ 64

unfoldable pub register : Broker → ℕ → Broker × ℕ
register b outbound = (
  record {
    next_id = (b.next_id + 1) % u64_mod;
    sessions = insert b.next_id (record { outbound = outbound; subs = [] }) b.sessions;
  },
  b.next_id,
)

unfoldable pub deregister : Broker → ℕ → Broker
deregister b id = record b { sessions = remove id b.sessions }

unfoldable pub add_filter : Text → Session → Session
add_filter topic_filter s =
    if any (λ f. text_eq f topic_filter) s.subs
    then s
    else record s { subs = s.subs ++ topic_filter ∷ [] }

unfoldable pub subscribe : Broker → ℕ → Text → Broker
subscribe b id topic_filter = record b { sessions = adjust id (add_filter topic_filter) b.sessions }

unfoldable pub drop_filter : Text → Session → Session
drop_filter topic_filter s = record s { subs = filter (λ f. not (text_eq f topic_filter)) s.subs }

unfoldable pub unsubscribe : Broker → ℕ → Text → Broker
unsubscribe b id topic_filter = record b {
  sessions = adjust id (drop_filter topic_filter) b.sessions;
}

sum_subs : List (ℕ × Session) → ℕ
sum_subs [] = 0
sum_subs ((id, s) ∷ rest) = length s.subs + sum_subs rest

unfoldable pub size : Broker → ℕ × ℕ
unfolding sum_subs
size b = (length b.sessions, sum_subs b.sessions)

-- `SubscribeReasonCode::Success(QoS::AtMostOnce)`, the one code that is given
pub data ReasonCode : Type 0 where
  success_at_most_once : ReasonCode

-- The library's matching of a topic with a filter, and its encoding of packets, which fails where a
-- packet is too long. A SUBACK and an UNSUBACK carry the id of the packet that they answer; the
-- CONNACK is `Success`, with no session present.
pub record Mqtt : Type 0 where
  pub matches : Text → Text → Bool
  pub write_publish : Text → Bytes → Option Bytes
  pub write_connack : Option Bytes
  pub write_suback : ℕ → List ReasonCode → Option Bytes
  pub write_unsuback : ℕ → Option Bytes

module _ (mqtt : Mqtt) where
  open mqtt use {matches, write_publish}

  unfoldable pub wants : Text → Session → Bool
  wants topic s = any (λ f. matches topic f) s.subs

  unfoldable pub has_local_subscriber_for : Broker → Text → Bool
  has_local_subscriber_for b topic = any (λ e. wants topic (e.1)) b.sessions

  -- `expect("Publish::write")`: `none` is a panic.
  unfoldable pub encode_publish : Text → Bytes → Option Bytes
  encode_publish topic payload = write_publish topic payload

  -- One session: `delivered` counts the sends that are `Ok`.
  unfoldable pub visit : Text → Bytes → Session → Channels → ℕ → Channels × ℕ
  visit topic bytes s chans delivered =
      let sent = send s.outbound bytes chans in
      if wants topic s
      then (sent.0, if sent.1 then delivered + 1 else delivered)
      else (chans, delivered)

  -- The loop over the sessions.
  unfoldable pub deliver : Text → Bytes → List (ℕ × Session) → Channels → ℕ → Channels × ℕ
  deliver topic bytes [] chans delivered = (chans, delivered)
  deliver topic bytes ((id, s) ∷ rest) chans delivered =
      let after = visit topic bytes s chans delivered in deliver topic bytes rest after.0 after.1

  unfoldable pub publish_local : Broker → Text → Bytes → Channels → Option (Channels × ℕ)
  publish_local b topic payload chans = elim (encode_publish topic payload) [
    | none ↦ none
    | some bytes ↦ some (deliver topic bytes b.sessions chans 0)
  ]

unfoldable pub send_direct : Broker → ℕ → Bytes → Channels → Channels
send_direct b id bytes chans = elim (lookup id b.sessions) [
  | none ↦ chans
  | some s ↦ (send s.outbound bytes chans).0
]
