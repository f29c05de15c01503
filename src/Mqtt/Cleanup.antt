-- ===== src/Mqtt/Cleanup.antt =====
-- mqtt.rs: a connection that has ended leaves no session behind.
use geomqtt.Base.{ℕ, List, Option, none, some, Bool, false, ◌≡◌, ap, subst, arith, Text, some_inj}
use geomqtt.Broker.Defs
use geomqtt.Broker.Table.{is_registered, holds, holds-deregister}
use geomqtt.Stream.Defs.{Decoder, Reading, waiting, ended}
use geomqtt.Mqtt.Packet.{Packet}
use geomqtt.Mqtt.Connection.{Connection, Event, WsEvent, dropped, finish, handle_tcp, handle_ws}
use geomqtt.World.{Env, World}

module _ (env : Env) (decoder : Decoder Packet) (outbound : ℕ) where
  IsGone : ℕ → Text → Connection env → Type 0
  IsGone id f c =
      (is_registered c.world.broker id ≡ false)
      × (holds c.world.broker id f ≡ false)
      × ((c.world.chans outbound).is_open ≡ false)

  dropped-closed : (chans : Defs.Channels) → ((dropped outbound chans) outbound).is_open ≡ false
  unfolding dropped
  dropped-closed chans = ground arith

  finish-IsGone :
      (id : ℕ) (f : Text) (r : Reading) (before after : Connection env)
      → finish env decoder id outbound r before ≡ some (ended, after)
      → IsGone id f after
  unfolding finish IsGone
  finish-IsGone id f (waiting buf) before after h =
      let p : waiting buf ≡ ended = ap (λ q. q.0) (some_inj h) in cc
  finish-IsGone id f ended before after h =
      let gone = holds-deregister before.world.broker id id f in
      subst (IsGone id f) (ap (λ q. q.1) (some_inj h))
        (ground (arith, gone.0), ground (arith, gone.1), dropped-closed before.world.chans)

  ended-IsGone :
      (id : ℕ) (f : Text) (o : Option (Reading × Connection env)) (after : Connection env)
      → elim o as (λ _. Option (Reading × Connection env)) [
        | none ↦ none
        | some (r, c) ↦ finish env decoder id outbound r c
      ]
        ≡ some (ended, after)
      → IsGone id f after
  ended-IsGone id f none after h = cc
  ended-IsGone id f (some (r, c)) after h = finish-IsGone id f r c after h

  -- However a connection over TCP has ended, by its peer, by a failed read or write, by bytes that
  -- are no packet or by a packet that ends it, and whatever other tasks did meanwhile: its session
  -- is not registered any more, and holds no filter, and its channel is closed.
  pub handle_tcp-deregisters :
      (writes : ℕ → Bool) (events : List (Event env)) (w : World env) (after : Connection env)
      (f : Text)
      → handle_tcp env decoder outbound writes events w ≡ some (ended, after)
      → (is_registered after.world.broker w.broker.next_id ≡ false)
        × (holds after.world.broker w.broker.next_id f ≡ false)
        × ((after.world.chans outbound).is_open ≡ false)
  unfolding handle_tcp IsGone Defs.register
  handle_tcp-deregisters writes events w after f h = ended-IsGone w.broker.next_id f _ after h

  -- The same of a connection over a WebSocket.
  pub handle_ws-deregisters :
      (writes : ℕ → Bool) (events : List (WsEvent env)) (w : World env) (after : Connection env)
      (f : Text)
      → handle_ws env decoder outbound writes events w ≡ some (ended, after)
      → (is_registered after.world.broker w.broker.next_id ≡ false)
        × (holds after.world.broker w.broker.next_id f ≡ false)
        × ((after.world.chans outbound).is_open ≡ false)
  unfolding handle_ws IsGone Defs.register
  handle_ws-deregisters writes events w after f h = ended-IsGone w.broker.next_id f _ after h
