-- ===== src/Mqtt/Returns.antt =====
-- mqtt.rs: a connection never panics, and ends when its peer closes it.
use geomqtt.Base.{
  ℕ, List, [], ◌∷◌, ◌++◌, Option, none, some, Bool, true, false, ◌≡◌, refl, Text, Bytes,
  if◌then◌else◌,
}
use geomqtt.Broker.Defs.{Channels}
use geomqtt.Broker.Table.{is_registered, holds}
use geomqtt.Broker.Defs
use geomqtt.Fanout.Total.{CanEncode, publish_local-IsTotal}
use geomqtt.Mqtt.Cleanup.{handle_tcp-deregisters, handle_ws-deregisters}
use geomqtt.Mqtt.Connection.{
  Connection, Event, WsEvent, pop, write_all, handled, on_packet, after_write, write_next,
  meanwhile, step, ws_step, finish, run, handle_tcp, handle_ws,
}
use geomqtt.Mqtt.Packet.{
  Packet, connect, subscribe, unsubscribe, publish, ping_req, disconnect, other, Handled, goes_on,
  ends, send_outbound, reply, add_subscription, drop_subscription, subscribe_all, publish_user,
  dispatch, handle_packet,
}
use geomqtt.Stream.Defs.{Decoder, Reading, waiting, ended}
use geomqtt.Stream.Returns.{resume-IsSome}
use geomqtt.World.{Env, World, Action, ◌>>=◌}
use geomqtt.World.Total.{IsSome, IsSome-elim, Gives-IsSome, for_each-IsSome}

if-IsSome : {A : Type 0} (b : Bool) (x y : A) → IsSome (if b then some x else some y)
if-IsSome true x y = tt
if-IsSome false x y = tt

module _ {C : Type 0} where
  -- There is a value, and the connection has ended.
  abbrev pub Ends : Option (Reading × C) → Type 0
  Ends none = ⊥
  Ends (some (waiting buf, c)) = ⊥
  Ends (some (ended, c)) = Unit

  Ends-elim :
      (o : Option (Reading × C)) (f : Reading → C → Option (Reading × C))
      → IsSome o
      → ((r : Reading) (c : C) → Ends (f r c))
      → Ends (elim o [ none ↦ none | some (r, c) ↦ f r c ])
  Ends-elim none f h k = h
  Ends-elim (some (r, c)) f h k = k r c

-- The loop runs, and it has ended after an event that ends it.
module _ {C E : Type 0} (turn : E → Reading → Action C Reading)
    (runs : (e : E) (r : Reading) (c : C) → IsSome (turn e r c)) where
  run-IsSome : (events : List E) (r : Reading) (c : C) → IsSome (run turn events r c)
  unfolding run
  run-IsSome [] r c = tt
  run-IsSome (e ∷ events) ended c = tt
  run-IsSome (e ∷ events) (waiting buf) c =
      IsSome-elim _ _ (runs e (waiting buf) c) (λ r' v. run-IsSome events r' v)

  ended-Ends : (events : List E) (c : C) → Ends (run turn events ended c)
  unfolding run
  ended-Ends [] c = tt
  ended-Ends (e ∷ events) c = tt

  run-Ends :
      (last : E) (events more : List E) (r : Reading) (c : C)
      → ((buf : Bytes) (v : C) → turn last (waiting buf) v ≡ some (ended, v))
      → Ends (run turn (events ++ last ∷ more) r c)
  unfolding run
  run-Ends last [] more ended c h = tt
  run-Ends last [] more (waiting buf) c h = rw (h buf c, ◌>>=◌) (ended-Ends more c)
  run-Ends last (e ∷ events) more ended c h = tt
  run-Ends last (e ∷ events) more (waiting buf) c h =
      Ends-elim _ _ (runs e (waiting buf) c) (λ r' v. run-Ends last events more r' v h)

module _ (env : Env) (enc : CanEncode env) where
  open env use {mqtt}

  reply-IsSome :
      (outbound : ℕ) (o : Option Bytes) (seen : Bool) (spawned : List Text) (w : World env)
      → IsSome (reply env outbound o seen spawned w)
  unfolding reply send_outbound
  reply-IsSome outbound none seen spawned w = tt
  reply-IsSome outbound (some bytes) seen spawned w = tt

  subscribe_all-IsSome :
      (self outbound pkid : ℕ) (filters : List Text) (w : World env)
      → IsSome (subscribe_all env self outbound pkid filters w)
  unfolding subscribe_all add_subscription
  subscribe_all-IsSome self outbound pkid filters w =
      IsSome-elim _ _ (for_each-IsSome filters (add_subscription env self) w (λ _ _. tt))
        (λ _ v. reply-IsSome outbound _ true filters v)

  publish_user-IsSome :
      (topic : Text) (payload : Bytes) (w : World env) → IsSome (publish_user env topic payload w)
  unfolding publish_user
  publish_user-IsSome topic payload w =
      IsSome-elim _ _ (Gives-IsSome w.broker _ (publish_local-IsTotal env enc topic payload w))
        (λ _ _. tt)

  dispatch-IsSome :
      (self outbound : ℕ) (seen : Bool) (pkt : Packet) (w : World env)
      → IsSome (dispatch env self outbound seen pkt w)
  unfolding dispatch drop_subscription
  dispatch-IsSome self outbound true connect w = reply-IsSome outbound _ true [] w
  dispatch-IsSome self outbound false connect w = reply-IsSome outbound _ true [] w
  dispatch-IsSome self outbound true (subscribe pkid fs) w =
      subscribe_all-IsSome self outbound pkid fs w
  dispatch-IsSome self outbound false (subscribe pkid fs) w = tt
  dispatch-IsSome self outbound true (unsubscribe pkid ts) w =
      IsSome-elim _ _ (for_each-IsSome ts (drop_subscription env self) w (λ _ _. tt))
        (λ _ v. reply-IsSome outbound _ true [] v)
  dispatch-IsSome self outbound false (unsubscribe pkid ts) w =
      IsSome-elim _ _ (for_each-IsSome ts (drop_subscription env self) w (λ _ _. tt))
        (λ _ v. reply-IsSome outbound _ false [] v)
  dispatch-IsSome self outbound true (publish t p) w =
      IsSome-elim _ _ (publish_user-IsSome t p w) (λ _ _. tt)
  dispatch-IsSome self outbound false (publish t p) w =
      IsSome-elim _ _ (publish_user-IsSome t p w) (λ _ _. tt)
  dispatch-IsSome self outbound true ping_req w = reply-IsSome outbound _ true [] w
  dispatch-IsSome self outbound false ping_req w = reply-IsSome outbound _ false [] w
  dispatch-IsSome self outbound true disconnect w = tt
  dispatch-IsSome self outbound false disconnect w = tt
  dispatch-IsSome self outbound true other w = tt
  dispatch-IsSome self outbound false other w = tt

  handle_packet-IsSome :
      (self outbound : ℕ) (seen : Bool) (pkt : Packet) (w : World env)
      → IsSome (handle_packet env self outbound seen pkt w)
  unfolding handle_packet
  handle_packet-IsSome self outbound seen pkt w = dispatch-IsSome self outbound seen pkt _

  module _ (decoder : Decoder Packet) (self outbound : ℕ) where
    handled-IsSome :
        (h : Handled) (c : Connection env) → IsSome (handled env decoder self outbound h c)
    unfolding handled
    handled-IsSome (goes_on seen filters) c = tt
    handled-IsSome ends c = tt

    on_packet-IsSome :
        (pkt : Packet) (c : Connection env) → IsSome (on_packet env decoder self outbound pkt c)
    unfolding on_packet
    on_packet-IsSome pkt c =
        IsSome-elim _ _ (handle_packet-IsSome self outbound c.connect_seen pkt c.world)
          (λ h w. handled-IsSome h _)

    after_write-IsSome :
        (r : Reading) (ok : Bool) (c : Connection env)
        → IsSome (after_write env decoder self outbound r ok c)
    unfolding after_write
    after_write-IsSome r true c = tt
    after_write-IsSome r false c = tt

    write_all-IsSome :
        (bytes : Bytes) (c : Connection env) → IsSome (write_all env decoder self outbound bytes c)
    unfolding write_all
    write_all-IsSome bytes c = if-IsSome (c.writes 0) _ _

    write_next-IsSome :
        (r : Reading) (c : Connection env) → IsSome (write_next env decoder self outbound r c)
    unfolding write_next
    write_next-IsSome r c = go (pop outbound c.world.chans)
      where
        go :
            (o : Option (Bytes × Channels))
            → IsSome (elim o as (λ _. Option (Reading × Connection env)) [
              | none ↦ some (r, c)
              | some (bytes, chans) ↦
                  elim (write_all env decoder self outbound bytes
                      (record c { world = record c.world { chans = chans } }))
                    as (λ _. Option (Reading × Connection env)) [
                      | none ↦ none
                      | some (ok, v) ↦ after_write env decoder self outbound r ok v
                    ]
            ])
        go none = tt
        go (some (bytes, chans)) =
            IsSome-elim _ _ (write_all-IsSome bytes _) (λ ok v. after_write-IsSome r ok v)

    step-IsSome :
        (e : Event env) (r : Reading) (c : Connection env)
        → IsSome (step env decoder self outbound e r c)
    unfolding step meanwhile
    step-IsSome (Event.arrived chunk) r c =
        resume-IsSome decoder (on_packet env decoder self outbound) on_packet-IsSome r chunk c
    step-IsSome Event.closed r c = tt
    step-IsSome Event.read_failed r c = tt
    step-IsSome Event.outgoing r c = write_next-IsSome r c
    step-IsSome (Event.elsewhere act) r c = tt

    ws_step-IsSome :
        (e : WsEvent env) (r : Reading) (c : Connection env)
        → IsSome (ws_step env decoder self outbound e r c)
    unfolding ws_step meanwhile
    ws_step-IsSome (WsEvent.binary chunk) r c =
        resume-IsSome decoder (on_packet env decoder self outbound) on_packet-IsSome r chunk c
    ws_step-IsSome (WsEvent.ping p) r c =
        IsSome-elim _ _ (write_all-IsSome p c) (λ ok v. after_write-IsSome r ok v)
    ws_step-IsSome WsEvent.close r c = tt
    ws_step-IsSome WsEvent.stream_end r c = tt
    ws_step-IsSome WsEvent.failed r c = tt
    ws_step-IsSome WsEvent.ignored r c = tt
    ws_step-IsSome WsEvent.outgoing r c = write_next-IsSome r c
    ws_step-IsSome (WsEvent.elsewhere act) r c = tt

    finish-IsSome :
        (r : Reading) (c : Connection env) → IsSome (finish env decoder self outbound r c)
    unfolding finish
    finish-IsSome (waiting buf) c = tt
    finish-IsSome ended c = tt

module _ (env : Env) (enc : CanEncode env) (decoder : Decoder Packet) (outbound : ℕ)
    (writes : ℕ → Bool) where
  finish-Ends :
      (self : ℕ) (o : Option (Reading × Connection env))
      → Ends o
      → (after : Connection env) × (elim o as (λ _. Option (Reading × Connection env)) [
        | none ↦ none
        | some (r, c) ↦ finish env decoder self outbound r c
      ]
          ≡ some (ended, after))
  unfolding finish
  finish-Ends self none h = elim h [ ]
  finish-Ends self (some (waiting buf, c)) h = elim h [ ]
  finish-Ends self (some (ended, c)) h = (_, refl)

  -- Whatever a TCP connection has sent and whatever other tasks have done: when its peer closes it,
  -- its loop has ended without a panic, its session is not registered and holds no filter, and its
  -- channel is closed. This holds as long as packets can be encoded.
  pub handle_tcp_closed :
      (events more : List (Event env)) (w : World env)
      → (after : Connection env) × (handle_tcp env decoder outbound writes
            (events ++ Event.closed ∷ more)
            w
          ≡ some (ended, after))
        × ((f : Text)
            → (is_registered after.world.broker w.broker.next_id ≡ false)
              × (holds after.world.broker w.broker.next_id f ≡ false))
        × ((after.world.chans outbound).is_open ≡ false)
  unfolding handle_tcp step run Defs.register
  handle_tcp_closed events more w =
      let (after, ran) = finish-Ends w.broker.next_id _ (
        run-Ends _ (step-IsSome env enc decoder w.broker.next_id outbound) Event.closed events more
          (waiting []) _ (λ buf v. refl)) in
      let gone = λ (f : Text).
        handle_tcp-deregisters env decoder outbound writes (events ++ Event.closed ∷ more) w after f
          ran in
      let (registered, held, closed) = gone [] in
      (after, ran, λ f. let (r, h, c) = gone f in (r, h), closed)

  -- The same of a WebSocket that gets a close message.
  handle_ws_closed :
      (events more : List (WsEvent env)) (w : World env)
      → (after : Connection env) × (handle_ws env decoder outbound writes
            (events ++ WsEvent.close ∷ more)
            w
          ≡ some (ended, after))
        × ((f : Text)
            → (is_registered after.world.broker w.broker.next_id ≡ false)
              × (holds after.world.broker w.broker.next_id f ≡ false))
        × ((after.world.chans outbound).is_open ≡ false)
  unfolding handle_ws ws_step run Defs.register
  handle_ws_closed events more w =
      let (after, ran) = finish-Ends w.broker.next_id _ (
        run-Ends _ (ws_step-IsSome env enc decoder w.broker.next_id outbound) WsEvent.close events
          more (waiting []) _ (λ buf v. refl)) in
      let gone = λ (f : Text).
        handle_ws-deregisters env decoder outbound writes (events ++ WsEvent.close ∷ more) w after f
          ran in
      let (registered, held, closed) = gone [] in
      (after, ran, λ f. let (r, h, c) = gone f in (r, h), closed)
