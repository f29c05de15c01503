-- ===== src/Mqtt/Appends.antt =====
-- mqtt.rs: a packet only adds to the channels.
use geomqtt.Base.{
  ℕ, List, [], ◌∷◌, ◌++◌, append-nil, append_assoc, Option, none, some, Bool, true, false, ◌≡◌, sym,
  ap, ◌∙◌, arith, Text, Bytes, ◌==◌, if◌then◌else◌,
}
use geomqtt.Broker.Defs
use geomqtt.Broker.Defs.{Channels, encode_publish, deliver}
use geomqtt.Broker.Delivery.{send-queue, deliver-queue}
use geomqtt.Mqtt.Packet.{
  Packet, connect, subscribe, unsubscribe, publish, ping_req, disconnect, other, send_outbound,
  reply, add_subscription, drop_subscription, subscribe_all, publish_user, dispatch, handle_packet,
}
use geomqtt.World.{Env, World, for_each, publish_local}

-- A list is continued.
abbrev pub Extends : List Bytes → List Bytes → Type 0
Extends before after = (more : List Bytes) × (after ≡ before ++ more)

pub Extends-refl : (q : List Bytes) → Extends q q
Extends-refl q = ([], sym (append-nil q))

pub Extends-trans : (p q r : List Bytes) → Extends p q → Extends q r → Extends p r
Extends-trans p q r (m, e) (n, f) = (m ++ n, f ∙ ap (λ l. l ++ n) e ∙ append_assoc p m n)

module _ (env : Env) (d : ℕ) where
  -- The action panics, or the channel is continued.
  abbrev pub Adds : {A : Type 0} → World env → Option (A × World env) → Type 0
  Adds w none = Unit
  Adds w (some (a, w')) = Extends (w.chans d).queue (w'.chans d).queue

  Adds-bind :
      {A B : Type 0} (w : World env) (o : Option (A × World env))
      (k : A → World env → Option (B × World env))
      → Adds w o
      → ((a : A) (v : World env) → Adds v (k a v))
      → Adds w (elim o [ none ↦ none | some (a, v) ↦ k a v ])
  Adds-bind w none k h hk = tt
  Adds-bind w (some (a, v)) k h hk = after (k a v) (hk a v)
    where
      after : {B : Type 0} (o : Option (B × World env)) → Adds v o → Adds w o
      after none g = tt
      after (some (b, u)) g = Extends-trans _ _ _ h g

  Adds-for_each :
      {A : Type 0} (xs : List A) (body : A → World env → Option (Unit {0} × World env))
      (w : World env)
      → ((x : A) (v : World env) → Adds v (body x v))
      → Adds w (for_each xs body w)
  unfolding for_each
  Adds-for_each [] body w h = Extends-refl _
  Adds-for_each (x ∷ xs) body w h =
      Adds-bind w (body x w) (λ _. for_each xs body) (h x w) (λ _ v. Adds-for_each xs body v h)

  send-Extends :
      (c : ℕ) (bytes : Bytes) (chans : Channels)
      → Extends (chans d).queue ((Defs.send c bytes chans).0 d).queue
  send-Extends c bytes chans = (
    if d == c then (if (chans d).is_open then bytes ∷ [] else []) else [],
    ground (arith, send-queue c d bytes chans, append-nil (chans d).queue),
  )

  reply-Adds :
      (outbound : ℕ) (o : Option Bytes) (seen : Bool) (spawned : List Text) (w : World env)
      → Adds w (reply env outbound o seen spawned w)
  unfolding reply send_outbound
  reply-Adds outbound none seen spawned w = Extends-refl _
  reply-Adds outbound (some bytes) seen spawned w = send-Extends outbound bytes w.chans

  delivered-Adds :
      (topic : Text) (o : Option Bytes) (w : World env)
      → Adds w
          (elim (elim o as (λ _. Option (Channels × ℕ)) [
            | none ↦ none
            | some bytes ↦ some (deliver env.mqtt topic bytes w.broker.sessions w.chans 0)
          ])
            as (λ _. Option (ℕ × World env)) [
              | none ↦ none
              | some (chans, n) ↦ some (n, record w { chans = chans })
            ])
  delivered-Adds topic none w = tt
  delivered-Adds topic (some bytes) w =
      (_, deliver-queue env.mqtt topic bytes w.broker.sessions w.chans 0 d)

  publish_local-Adds :
      (topic : Text) (body : Bytes) (w : World env) → Adds w (publish_local env topic body w)
  unfolding publish_local Defs.publish_local
  publish_local-Adds topic body w = delivered-Adds topic (encode_publish env.mqtt topic body) w

  dispatch-Adds :
      (self outbound : ℕ) (seen : Bool) (pkt : Packet) (w : World env)
      → Adds w (dispatch env self outbound seen pkt w)
  unfolding dispatch subscribe_all publish_user add_subscription drop_subscription
  dispatch-Adds self outbound true connect w = reply-Adds outbound _ true [] w
  dispatch-Adds self outbound false connect w = reply-Adds outbound _ true [] w
  dispatch-Adds self outbound false (subscribe pkid filters) w = Extends-refl _
  dispatch-Adds self outbound true (subscribe pkid filters) w =
      Adds-bind w _ _ (Adds-for_each filters _ w (λ f v. Extends-refl _))
        (λ _ v. reply-Adds outbound _ _ _ v)
  dispatch-Adds self outbound true (unsubscribe pkid topics) w =
      Adds-bind w _ _ (Adds-for_each topics _ w (λ f v. Extends-refl _))
        (λ _ v. reply-Adds outbound _ _ _ v)
  dispatch-Adds self outbound false (unsubscribe pkid topics) w =
      Adds-bind w _ _ (Adds-for_each topics _ w (λ f v. Extends-refl _))
        (λ _ v. reply-Adds outbound _ _ _ v)
  dispatch-Adds self outbound true (publish topic payload) w =
      Adds-bind w _ _ (Adds-bind w _ _ (publish_local-Adds topic payload w) (λ _ v. Extends-refl _))
        (λ _ v. Extends-refl _)
  dispatch-Adds self outbound false (publish topic payload) w =
      Adds-bind w _ _ (Adds-bind w _ _ (publish_local-Adds topic payload w) (λ _ v. Extends-refl _))
        (λ _ v. Extends-refl _)
  dispatch-Adds self outbound true ping_req w = reply-Adds outbound _ _ [] w
  dispatch-Adds self outbound false ping_req w = reply-Adds outbound _ _ [] w
  dispatch-Adds self outbound true disconnect w = Extends-refl _
  dispatch-Adds self outbound false disconnect w = Extends-refl _
  dispatch-Adds self outbound true other w = Extends-refl _
  dispatch-Adds self outbound false other w = Extends-refl _

  pub handle_packet-Adds :
      (self outbound : ℕ) (seen : Bool) (pkt : Packet) (w : World env)
      → Adds w (handle_packet env self outbound seen pkt w)
  unfolding handle_packet
  handle_packet-Adds self outbound seen pkt w = dispatch-Adds self outbound seen pkt _
