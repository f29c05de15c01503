-- ===== src/Node/Run.antt =====
-- main.rs: a run of the server is, for the broker, a run of its operations.
use geomqtt.Base.{
  ℕ, List, [], ◌∷◌, Option, some, Bool, true, false, ◌≡◌, sym, ap, ◌∙◌, subst, some_inj, Text,
}
use geomqtt.Bridge.Deliver.{receive-IsTotal}
use geomqtt.Broker.Defs
use geomqtt.Broker.Defs.{Broker}
use geomqtt.Broker.Invariant.{IsValid}
use geomqtt.Broker.Reach
use geomqtt.Broker.Reach.{Reach, start, next, Reach-IsValid}
use geomqtt.Config.FromEnv.{Config}
use geomqtt.Fanout.Total.{CanEncode}
use geomqtt.Float.{F64}
use geomqtt.Http.Document.{Document}
use geomqtt.Http.Handle.{Process, Request, Response, settings, count_request}
use geomqtt.Http.Served.{count_request_answers}
use geomqtt.Mqtt.Connection.{accept_tcp, accept_ws}
use geomqtt.Mqtt.Packet.{Packet}
use geomqtt.Mqtt.Table.{broker_after, subscribed, unsubscribed, handle_packet_broker}
use geomqtt.Mqtt.Total.{snapshot_for_filter-IsTotal}
use geomqtt.Node.Step.{Step, Run, starts, goes_on}
use geomqtt.Resp.Total.{handle_command-IsTotal}
use geomqtt.World.{Env, World}
use geomqtt.World.Total.{Gives}

subscribed-Reach : (b : Broker) (id : ℕ) (gs : List Text) → Reach b → Reach (subscribed b id gs)
subscribed-Reach b id [] r = r
subscribed-Reach b id (g ∷ gs) r =
    subscribed-Reach (Defs.subscribe b id g) id gs (next r (Reach.subscribes id g))

unsubscribed-Reach : (b : Broker) (id : ℕ) (gs : List Text) → Reach b → Reach (unsubscribed b id gs)
unsubscribed-Reach b id [] r = r
unsubscribed-Reach b id (g ∷ gs) r =
    unsubscribed-Reach (Defs.unsubscribe b id g) id gs (next r (Reach.unsubscribes id g))

module _ (env : Env) where
  broker_after-Reach :
      (id : ℕ) (seen : Bool) (pkt : Packet) (b : Broker)
      → Reach b
      → Reach (broker_after env id seen pkt b)
  unfolding broker_after
  broker_after-Reach id true (Packet.subscribe pkid gs) b r = subscribed-Reach b id gs r
  broker_after-Reach id false (Packet.subscribe pkid gs) b r = r
  broker_after-Reach id true (Packet.unsubscribe pkid gs) b r = unsubscribed-Reach b id gs r
  broker_after-Reach id false (Packet.unsubscribe pkid gs) b r = unsubscribed-Reach b id gs r
  broker_after-Reach id true Packet.connect b r = r
  broker_after-Reach id false Packet.connect b r = r
  broker_after-Reach id true (Packet.publish t p) b r = r
  broker_after-Reach id false (Packet.publish t p) b r = r
  broker_after-Reach id true Packet.ping_req b r = r
  broker_after-Reach id false Packet.ping_req b r = r
  broker_after-Reach id true Packet.disconnect b r = r
  broker_after-Reach id false Packet.disconnect b r = r
  broker_after-Reach id true Packet.other b r = r
  broker_after-Reach id false Packet.other b r = r

  -- The broker of a state that an action gives.
  Gives-eq :
      {A : Type 0} (b : Broker) (o : Option (A × World env)) (a : A) (w : World env)
      → Gives b o
      → o ≡ some (a, w)
      → w.broker ≡ b
  Gives-eq b o a w h e = subst (Gives b) e h

module _ (env : Env) {SocketAddr : Type 0} (cfg : Config SocketAddr)
    (to_string : Document (F64.F (Env.float env)) → Text) (reason : Text)
    (process : Process (Env.float env)) (enc : CanEncode env) where
  request_broker :
      (req : Request) (response : Response) (w w' : World env)
      → count_request env cfg to_string reason process req w ≡ some (response, w')
      → w'.broker ≡ w.broker
  request_broker req response w w' e =
      let (r, s, answered) = count_request_answers env cfg to_string reason process req w in
      ap (λ p. p.1.broker) (some_inj (sym e ∙ answered))

  same_broker : (b c : Broker) → c ≡ b → Reach b → Reach c
  same_broker b c e r = subst Reach (sym e) r

  Step-Reach :
      (w w' : World env)
      → Step env cfg to_string reason process w w'
      → Reach w.broker
      → Reach w'.broker
  unfolding accept_tcp accept_ws
  Step-Reach w w' Step.accepts_tcp r = r
  Step-Reach w w' Step.accepts_ws r = r
  Step-Reach w w' (Step.connects outbound room fresh) r =
      next r (Reach.registers outbound room fresh)
  Step-Reach w w' (Step.packet id outbound seen pkt out v e) r =
      same_broker _ _ (handle_packet_broker env id outbound seen pkt w v out e)
        (broker_after-Reach env id seen pkt w.broker r)
  Step-Reach w w' (Step.snapshot filter id done v e) r =
      same_broker _ _
        (Gives-eq env w.broker _ done v
          (snapshot_for_filter-IsTotal env (settings cfg) enc filter id w) e)
        r
  Step-Reach w w' (Step.writes outbound bytes chans e) r = r
  Step-Reach w w' (Step.disconnects id) r = next r (Reach.deregisters id)
  Step-Reach w w' (Step.command frame response v e) r =
      same_broker _ _
        (Gives-eq env w.broker _ response v (handle_command-IsTotal env (settings cfg) enc frame w)
          e)
        r
  Step-Reach w w' (Step.request req response v e) r =
      same_broker _ _ (request_broker req response w v e) r
  Step-Reach w w' (Step.bridged received v e) r =
      same_broker _ _ (Gives-eq env w.broker _ tt v (receive-IsTotal env enc received w) e) r
  Step-Reach w w' (Step.outside s clock influx) r = r

  Run-Reach : {w : World env} → Run env cfg to_string reason process w → Reach w.broker
  Run-Reach (starts upstream chans clock) = start
  Run-Reach (goes_on {w = w} {w' = w'} run s) = Step-Reach w w' s (Run-Reach run)

  -- In every state that a server reaches, whatever connections, packets, snapshots, commands, HTTP
  -- requests and messages of other nodes come in whatever order, ids are given once and lie below
  -- the counter, no two sessions share a channel and no session holds a filter twice. This holds as
  -- long as packets can be encoded, each connection brings a channel that no session has, and the
  -- counter of sessions does not wrap around.
  pub Run-IsValid : {w : World env} → Run env cfg to_string reason process w → IsValid w.broker
  Run-IsValid run = Reach-IsValid (Run-Reach run)
