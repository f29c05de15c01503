-- ===== src/Mqtt/Table.antt =====
-- mqtt.rs: what a packet does to the table of filters.
use geomqtt.Base.{
  ℕ, List, [], ◌∷◌, Option, none, some, Bool, true, false, ◌&&◌, ◌||◌, not, ◌≡◌, refl, sym, ap, ◌∙◌,
  arith, Text, Bytes, some_inj, ◌==◌, any, text_eq, text_eq_iff,
}
use geomqtt.Broker.Defs
use geomqtt.Broker.Defs.{Broker}
use geomqtt.Broker.Table.{is_registered, holds, holds-subscribe, holds-unsubscribe}
use geomqtt.Mqtt.Packet.{
  Packet, connect, subscribe, unsubscribe, publish, ping_req, disconnect, other, Handled,
  send_outbound, reply, add_subscription, drop_subscription, subscribe_all, publish_user, dispatch,
  handle_packet,
}
use geomqtt.World.{Env, World, for_each, publish_local}

-- What a packet of session `self` makes of the filters that session `id` holds: a SUBSCRIBE adds
-- its filters, if there was a CONNECT and the session is registered, and an UNSUBSCRIBE takes its
-- own away.
abbrev pub after_packet : ℕ → Bool → Packet → ℕ → Bool → (Text → Bool) → Text → Bool
after_packet self seen (subscribe pkid filters) id registered held f =
    held f || (seen && (id == self) && registered && any (λ g. text_eq g f) filters)
after_packet self seen (unsubscribe pkid topics) id registered held f =
    held f && not ((id == self) && any (λ g. text_eq g f) topics)
after_packet self seen _ id registered held f = held f

-- The broker after the loops over the filters.
abbrev pub subscribed : Broker → ℕ → List Text → Broker
subscribed b self [] = b
subscribed b self (g ∷ gs) = subscribed (Defs.subscribe b self g) self gs

abbrev pub unsubscribed : Broker → ℕ → List Text → Broker
unsubscribed b self [] = b
unsubscribed b self (g ∷ gs) = unsubscribed (Defs.unsubscribe b self g) self gs

holds-subscribed :
    (b : Broker) (self id : ℕ) (gs : List Text) (f : Text)
    → (is_registered (subscribed b self gs) id ≡ is_registered b id)
      × (holds (subscribed b self gs) id f
          ≡ holds b id f || ((id == self) && is_registered b id && any (λ g. text_eq g f) gs))
holds-subscribed b self id [] f = (refl, ground arith)
holds-subscribed b self id (g ∷ gs) f =
    let rest = holds-subscribed (Defs.subscribe b self g) self id gs f in
    let one = holds-subscribe b self id g f in
    (rest.0 ∙ one.0, ground (arith, rest.1, one.0, one.1))

holds-unsubscribed :
    (b : Broker) (self id : ℕ) (gs : List Text) (f : Text)
    → (is_registered (unsubscribed b self gs) id ≡ is_registered b id)
      × (holds (unsubscribed b self gs) id f
          ≡ holds b id f && not ((id == self) && any (λ g. text_eq g f) gs))
holds-unsubscribed b self id [] f = (refl, ground arith)
holds-unsubscribed b self id (g ∷ gs) f =
    let rest = holds-unsubscribed (Defs.unsubscribe b self g) self id gs f in
    let one = holds-unsubscribe b self id g f in
    (rest.0 ∙ one.0, ground (arith, rest.1, one.0, one.1, text_eq_iff f g, text_eq_iff g f))

module _ (env : Env) where
  -- The action panics, or leaves the broker as `b`.
  Leaves : {A : Type 0} → Broker → Option (A × World env) → Type 0
  Leaves b none = Unit
  Leaves b (some (a, w)) = w.broker ≡ b

  Leaves-some :
      {A : Type 0} (b : Broker) (o : Option (A × World env)) (a : A) (w : World env)
      → Leaves b o
      → o ≡ some (a, w)
      → w.broker ≡ b
  unfolding Leaves
  Leaves-some b none a w h e = cc
  Leaves-some b (some (a', w')) a w h e = sym (ap (λ p. p.1.broker) (some_inj e)) ∙ h

  Leaves-bind :
      {A B : Type 0} (b : Broker) (o : Option (A × World env))
      (k : A → World env → Option (B × World env))
      → Leaves b o
      → ((a : A) (w : World env) → w.broker ≡ b → Leaves b (k a w))
      → Leaves b (elim o [ none ↦ none | some (a, w) ↦ k a w ])
  unfolding Leaves
  Leaves-bind b none k h hk = tt
  Leaves-bind b (some (a, w)) k h hk = hk a w h

  add_all :
      (self : ℕ) (gs : List Text) (w : World env)
      → Leaves (subscribed w.broker self gs) (for_each gs (add_subscription env self) w)
  unfolding Leaves for_each add_subscription
  add_all self [] w = refl
  add_all self (g ∷ gs) w = add_all self gs _

  drop_all :
      (self : ℕ) (gs : List Text) (w : World env)
      → Leaves (unsubscribed w.broker self gs) (for_each gs (drop_subscription env self) w)
  unfolding Leaves for_each drop_subscription
  drop_all self [] w = refl
  drop_all self (g ∷ gs) w = drop_all self gs _

  reply-Leaves :
      (outbound : ℕ) (o : Option Bytes) (seen : Bool) (spawned : List Text) (b : Broker)
      (w : World env)
      → w.broker ≡ b
      → Leaves b (reply env outbound o seen spawned w)
  unfolding Leaves reply send_outbound
  reply-Leaves outbound none seen spawned b w h = h
  reply-Leaves outbound (some bytes) seen spawned b w h = h

  publish_local-Leaves :
      (topic : Text) (body : Bytes) (w : World env)
      → Leaves w.broker (publish_local env topic body w)
  unfolding Leaves publish_local Defs.publish_local
  publish_local-Leaves topic body w = ground arith

  -- The broker that a packet leaves.
  unfoldable pub broker_after : ℕ → Bool → Packet → Broker → Broker
  broker_after self true (subscribe pkid filters) b = subscribed b self filters
  broker_after self seen (unsubscribe pkid topics) b = unsubscribed b self topics
  broker_after self seen _ b = b

  dispatch-Leaves :
      (self outbound : ℕ) (seen : Bool) (pkt : Packet) (w : World env)
      → Leaves (broker_after self seen pkt w.broker) (dispatch env self outbound seen pkt w)
  unfolding broker_after dispatch subscribe_all publish_user Leaves
  dispatch-Leaves self outbound true connect w = reply-Leaves outbound _ true [] w.broker w refl
  dispatch-Leaves self outbound false connect w = reply-Leaves outbound _ true [] w.broker w refl
  dispatch-Leaves self outbound false (subscribe pkid filters) w = refl
  dispatch-Leaves self outbound true (subscribe pkid filters) w =
      Leaves-bind _ _ _ (add_all self filters w) (λ _ w'. reply-Leaves outbound _ _ _ _ w')
  dispatch-Leaves self outbound true (unsubscribe pkid topics) w =
      Leaves-bind _ _ _ (drop_all self topics w) (λ _ w'. reply-Leaves outbound _ _ _ _ w')
  dispatch-Leaves self outbound false (unsubscribe pkid topics) w =
      Leaves-bind _ _ _ (drop_all self topics w) (λ _ w'. reply-Leaves outbound _ _ _ _ w')
  dispatch-Leaves self outbound true (publish topic payload) w =
      Leaves-bind _ _ _ (Leaves-bind _ _ _ (publish_local-Leaves topic payload w) (λ _ w' h. h))
        (λ _ w' h. h)
  dispatch-Leaves self outbound false (publish topic payload) w =
      Leaves-bind _ _ _ (Leaves-bind _ _ _ (publish_local-Leaves topic payload w) (λ _ w' h. h))
        (λ _ w' h. h)
  dispatch-Leaves self outbound true ping_req w = reply-Leaves outbound _ _ [] w.broker w refl
  dispatch-Leaves self outbound false ping_req w = reply-Leaves outbound _ _ [] w.broker w refl
  dispatch-Leaves self outbound true disconnect w = refl
  dispatch-Leaves self outbound false disconnect w = refl
  dispatch-Leaves self outbound true other w = refl
  dispatch-Leaves self outbound false other w = refl

  broker_after-holds :
      (self : ℕ) (seen : Bool) (pkt : Packet) (b : Broker) (id : ℕ) (f : Text)
      → (is_registered (broker_after self seen pkt b) id ≡ is_registered b id)
        × (holds (broker_after self seen pkt b) id f
            ≡ after_packet self seen pkt id (is_registered b id) (holds b id) f)
  unfolding broker_after
  broker_after-holds self true (subscribe pkid filters) b id f =
      holds-subscribed b self id filters f
  broker_after-holds self false (subscribe pkid filters) b id f = (refl, ground arith)
  broker_after-holds self true (unsubscribe pkid topics) b id f =
      holds-unsubscribed b self id topics f
  broker_after-holds self false (unsubscribe pkid topics) b id f =
      holds-unsubscribed b self id topics f
  broker_after-holds self true connect b id f = (refl, refl)
  broker_after-holds self false connect b id f = (refl, refl)
  broker_after-holds self true (publish topic payload) b id f = (refl, refl)
  broker_after-holds self false (publish topic payload) b id f = (refl, refl)
  broker_after-holds self true ping_req b id f = (refl, refl)
  broker_after-holds self false ping_req b id f = (refl, refl)
  broker_after-holds self true disconnect b id f = (refl, refl)
  broker_after-holds self false disconnect b id f = (refl, refl)
  broker_after-holds self true other b id f = (refl, refl)
  broker_after-holds self false other b id f = (refl, refl)

  pub handle_packet_broker :
      (self outbound : ℕ) (seen : Bool) (pkt : Packet) (w w' : World env) (r : Handled)
      → handle_packet env self outbound seen pkt w ≡ some (r, w')
      → w'.broker ≡ broker_after self seen pkt w.broker
  unfolding handle_packet
  handle_packet_broker self outbound seen pkt w w' r h =
      Leaves-some (broker_after self seen pkt w.broker) _ r w'
        (dispatch-Leaves self outbound seen pkt _) h

  -- A packet registers and deregisters no session, and changes no filter but those of its own
  -- session: a SUBSCRIBE adds exactly its filters, if a CONNECT came before it and the session is
  -- registered, an UNSUBSCRIBE takes exactly its own away, and no other packet changes any.
  pub handle_packet-holds :
      (self outbound : ℕ) (seen : Bool) (pkt : Packet) (w w' : World env) (r : Handled) (id : ℕ)
      (f : Text)
      → handle_packet env self outbound seen pkt w ≡ some (r, w')
      → (is_registered w'.broker id ≡ is_registered w.broker id)
        × (holds w'.broker id f
            ≡ after_packet self seen pkt id (is_registered w.broker id) (holds w.broker id) f)
  handle_packet-holds self outbound seen pkt w w' r id f h =
      let left = handle_packet_broker self outbound seen pkt w w' r h in
      let kept = broker_after-holds self seen pkt w.broker id f in
      (ap (λ b. is_registered b id) left ∙ kept.0, ap (λ b. holds b id f) left ∙ kept.1)
