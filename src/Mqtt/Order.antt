-- ===== src/Mqtt/Order.antt =====
-- mqtt.rs: a connection writes what is sent to its session, in order.
use geomqtt.Base.{
  ℕ, suc, List, [], ◌∷◌, ◌++◌, append-nil, append_assoc, Option, none, some, Bool, true, false, ◌≡◌,
  refl, sym, ap, ◌∙◌, arith, Bytes, ◌==◌, ==_refl, if◌then◌else◌, All, length, subst,
}
use geomqtt.Broker.Defs.{Channels}
use geomqtt.Stream.Defs.{Decoder, Reading, waiting, ended, read, resume}
use geomqtt.Mqtt.Packet.{Packet}
use geomqtt.Mqtt.Appends.{Extends, Extends-refl}
use geomqtt.Mqtt.Connection.{
  Connection, Event, pop, write_all, after_write, write_next, meanwhile, step, run,
}
use geomqtt.World.{Env, World}
use geomqtt.Mqtt.Flow.{flow, Flows, Flows-trans, Extends-written, drain-Flows}

module _ (env : Env) (decoder : Decoder Packet) (session_id outbound : ℕ) where
  -- What is taken was at the front.
  unfoldable Popped : Channels → Option (Bytes × Channels) → Type 0
  Popped chans none = Unit
  Popped chans (some (bytes, chans')) = (chans outbound).queue ≡ bytes ∷ (chans' outbound).queue

  pop-Popped : (chans : Channels) → Popped chans (pop outbound chans)
  unfolding Popped pop
  pop-Popped chans = go (chans outbound).queue refl
    where
      go :
          (q : List Bytes)
          → (chans outbound).queue ≡ q
          → Popped chans (elim q as (λ _. Option (Bytes × Channels)) [
            | [] ↦ none
            | bytes ∷ rest ↦ some (
              bytes,
              λ d.
                  if d == outbound
                  then record { queue = rest; is_open = (chans outbound).is_open }
                  else chans d,
            )
          ])
      go [] e = tt
      go (bytes ∷ rest) e = ground (arith, e, ==_refl outbound)

  same_flow :
      (written rest : List Bytes) (bytes : Bytes)
      → (written ++ bytes ∷ []) ++ rest ≡ written ++ bytes ∷ rest
  same_flow written rest bytes = append_assoc written (bytes ∷ []) rest

  write_next-Flows :
      (buf : Bytes) (c : Connection env)
      → Flows env decoder session_id outbound c
          (write_next env decoder session_id outbound (waiting buf) c)
  unfolding write_next write_all after_write Popped
  write_next-Flows buf c = go (pop outbound c.world.chans) (pop-Popped c.world.chans)
    where
      written_to : Bool → Bytes → Channels → Option (Bool × Connection env)
      written_to ok bytes chans =
          let c1 = record c { world = record c.world { chans = chans } } in
          if ok
          then some (
            true,
            record c1 { written = c.written ++ bytes ∷ []; writes = λ i. c.writes (suc i) },
          )
          else some (false, record c1 { writes = λ i. c.writes (suc i) })

      after : Option (Bool × Connection env) → Option (Reading × Connection env)
      after o = elim o as (λ _. Option (Reading × Connection env)) [
        | none ↦ none
        | some (ok, c') ↦ after_write env decoder session_id outbound (waiting buf) ok c'
      ]

      try_write :
          (ok : Bool) (bytes : Bytes) (chans : Channels)
          → (c.world.chans outbound).queue ≡ bytes ∷ (chans outbound).queue
          → Flows env decoder session_id outbound c (after (written_to ok bytes chans))
      try_write true bytes chans e = (
        [],
        same_flow c.written (chans outbound).queue bytes
            ∙ ap (λ l. c.written ++ l) (sym e)
            ∙ sym (append-nil (flow env decoder session_id outbound c)),
      )
      try_write false bytes chans e = tt

      go :
          (o : Option (Bytes × Channels))
          → Popped c.world.chans o
          → Flows env decoder session_id outbound c
              (elim o as (λ _. Option (Reading × Connection env)) [
                | none ↦ some (waiting buf, c)
                | some (bytes, chans) ↦ after (written_to (c.writes 0) bytes chans)
              ])
      go none h = Extends-refl _
      go (some (bytes, chans)) h = try_write (c.writes 0) bytes chans h

  -- What other tasks do adds to the channel of the session, if it touches it at all.
  abbrev pub OnlyAdds : Event env → Type 0
  OnlyAdds (Event.elsewhere act) =
      (w : World env) → Extends (w.chans outbound).queue ((act w).chans outbound).queue
  OnlyAdds (Event.arrived chunk) = Unit
  OnlyAdds Event.closed = Unit
  OnlyAdds Event.read_failed = Unit
  OnlyAdds Event.outgoing = Unit

  step-Flows :
      (event : Event env) (buf : Bytes) (c : Connection env)
      → OnlyAdds event
      → Flows env decoder session_id outbound c
          (step env decoder session_id outbound event (waiting buf) c)
  unfolding step resume read meanwhile
  step-Flows (Event.arrived chunk) buf c h =
      drain-Flows env decoder session_id outbound (suc (length (buf ++ chunk))) (buf ++ chunk) c
  step-Flows Event.closed buf c h = tt
  step-Flows Event.read_failed buf c h = tt
  step-Flows Event.outgoing buf c h = write_next-Flows buf c
  step-Flows (Event.elsewhere act) buf c h =
      Extends-written env decoder session_id outbound c.written _ _ (h c.world)

  run-Flows :
      (events : List (Event env)) (buf : Bytes) (c : Connection env)
      → All OnlyAdds events
      → Flows env decoder session_id outbound c
          (run (step env decoder session_id outbound) events (waiting buf) c)
  unfolding run
  run-Flows [] buf c h = Extends-refl _
  run-Flows (e ∷ events) buf c (h, hs) =
      go (step env decoder session_id outbound e (waiting buf) c) (step-Flows e buf c h)
        (λ buf' c'. run-Flows events buf' c' hs)
    where
      ended_flows :
          (events : List (Event env)) (c' : Connection env)
          → Flows env decoder session_id outbound c
              (run (step env decoder session_id outbound) events ended c')
      ended_flows [] c' = tt
      ended_flows (e ∷ events) c' = tt

      go :
          (o : Option (Reading × Connection env))
          → Flows env decoder session_id outbound c o
          → ((buf' : Bytes) (c' : Connection env)
              → Flows env decoder session_id outbound c'
                  (run (step env decoder session_id outbound) events (waiting buf') c'))
          → Flows env decoder session_id outbound c
              (elim o as (λ _. Option (Reading × Connection env)) [
                | none ↦ none
                | some (r, c') ↦ run (step env decoder session_id outbound) events r c'
              ])
      go none f k = tt
      go (some (ended, c')) f k = ended_flows events c'
      go (some (waiting buf', c')) f k =
          Flows-trans env decoder session_id outbound c c' _ f (k buf' c')

  -- While a TCP connection is open, what its socket took followed by what still waits for it is the
  -- same as before the events, with new messages at the end: none is lost, sent twice or out of
  -- order. Other tasks may act in between, if they only add to the channel of the session.
  pub run-flow :
      (events : List (Event env)) (buf buf' : Bytes) (c c' : Connection env)
      → All OnlyAdds events
      → run (step env decoder session_id outbound) events (waiting buf) c ≡ some (waiting buf', c')
      → Extends (flow env decoder session_id outbound c) (flow env decoder session_id outbound c')
  run-flow events buf buf' c c' h e =
      subst (Flows env decoder session_id outbound c) e (run-Flows events buf c h)
