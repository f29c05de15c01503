-- ===== src/Mqtt/Flow.antt =====
-- mqtt.rs: what is read adds to what a connection writes.
use geomqtt.Base.{
  ℕ, zero, suc, List, ◌++◌, append_assoc, Option, none, some, Bool, true, false, sym, ap, ◌∙◌,
  Bytes,
}
use geomqtt.Stream.Defs.{
  Decoder, Decoded, item, incomplete, malformed, Reading, waiting, ended, drain,
}
use geomqtt.Mqtt.Packet.{Packet, Handled, goes_on, ends, handle_packet}
use geomqtt.Mqtt.Appends.{Extends, Extends-refl, Extends-trans, Adds, handle_packet-Adds}
use geomqtt.Mqtt.Connection.{Connection, handled, on_packet}
use geomqtt.World.{Env, World}

module _ (env : Env) (decoder : Decoder Packet) (session_id outbound : ℕ) where
  -- What the socket took, and what waits for it.
  abbrev pub flow : Connection env → List Bytes
  flow c = c.written ++ (c.world.chans outbound).queue

  -- A panic, the end of the connection, or a flow that is continued.
  abbrev pub Flows : Connection env → Option (Reading × Connection env) → Type 0
  Flows c none = Unit
  Flows c (some (ended, c')) = Unit
  Flows c (some (waiting buf, c')) = Extends (flow c) (flow c')

  abbrev FlowsOn : Connection env → Option (Bool × Connection env) → Type 0
  FlowsOn c none = Unit
  FlowsOn c (some (ok, c')) = Extends (flow c) (flow c')

  pub Extends-written :
      (written q r : List Bytes) → Extends q r → Extends (written ++ q) (written ++ r)
  Extends-written written q r (more, e) =
      (more, ap (λ l. written ++ l) e ∙ sym (append_assoc written q more))

  on_packet_flows :
      (pkt : Packet) (c : Connection env)
      → FlowsOn c (on_packet env decoder session_id outbound pkt c)
  unfolding on_packet handled
  on_packet_flows pkt c =
      go (handle_packet env session_id outbound c.connect_seen pkt c.world)
        (handle_packet-Adds env outbound session_id outbound c.connect_seen pkt c.world)
    where
      go :
          (o : Option (Handled × World env))
          → Adds env outbound c.world o
          → FlowsOn c (elim o as (λ _. Option (Bool × Connection env)) [
            | none ↦ none
            | some (result, world) ↦
                handled env decoder session_id outbound result (record c { world = world })
          ])
      go none h = tt
      go (some (goes_on seen filters, w)) h = Extends-written c.written _ _ h
      go (some (ends, w)) h = Extends-written c.written _ _ h

  pub Flows-trans :
      (b c : Connection env) (o : Option (Reading × Connection env))
      → Extends (flow b) (flow c)
      → Flows c o
      → Flows b o
  Flows-trans b c none h k = tt
  Flows-trans b c (some (ended, c')) h k = tt
  Flows-trans b c (some (waiting buf, c')) h k = Extends-trans _ _ _ h k

  -- The reading that follows a packet.
  on_packet_then :
      (pkt : Packet) (k : Bool → Connection env → Option (Reading × Connection env))
      (c : Connection env)
      → ((c' : Connection env) → Flows c' (k true c'))
      → ((c' : Connection env) → Flows c' (k false c'))
      → Flows c (elim (on_packet env decoder session_id outbound pkt c) [
        | none ↦ none
        | some (ok, c') ↦ k ok c'
      ])
  on_packet_then pkt k c ht hf =
      go (on_packet env decoder session_id outbound pkt c) (on_packet_flows pkt c)
    where
      go :
          (o : Option (Bool × Connection env))
          → FlowsOn c o
          → Flows c (elim o as (λ _. Option (Reading × Connection env)) [
            | none ↦ none
            | some (ok, c') ↦ k ok c'
          ])
      go none h = tt
      go (some (true, c')) h = Flows-trans c c' (k true c') h (ht c')
      go (some (false, c')) h = Flows-trans c c' (k false c') h (hf c')

  pub drain-Flows :
      (fuel : ℕ) (buf : Bytes) (c : Connection env)
      → Flows c (drain decoder (on_packet env decoder session_id outbound) fuel buf c)
  unfolding drain
  drain-Flows zero buf c = Extends-refl _
  drain-Flows (suc fuel) buf c = go (decoder.decode buf) (drain-Flows fuel)
    where
      go :
          (r : Decoded Packet)
          → ((rest : Bytes) (c' : Connection env)
              → Flows c' (drain decoder (on_packet env decoder session_id outbound) fuel rest c'))
          → Flows c (
              (elim r as (λ _. Connection env → Option (Reading × Connection env)) [
                | item a rest ↦ (λ b. elim (on_packet env decoder session_id outbound a b) [
                  | none ↦ none
                  | some (ok, c') ↦
                      (elim ok as (λ _. Connection env → Option (Reading × Connection env)) [
                        | true ↦ drain decoder (on_packet env decoder session_id outbound) fuel rest
                        | false ↦ (λ v. some (ended, v))
                      ])
                        c'
                ])
                | incomplete ↦ (λ b. some (waiting buf, b))
                | malformed ↦ (λ b. some (ended, b))
              ])
                c)
      go (item a rest) ih = on_packet_then a _ c (ih rest) (λ c'. tt)
      go incomplete ih = Extends-refl _
      go malformed ih = tt
