-- ===== src/Resp/Failure.antt =====
-- resp.rs: what a command that is answered by an error leaves behind.
use geomqtt.Base.{ℕ, List, [], ◌∷◌, Option, none, some, Text, ◌≡◌, ◌∙◌, some_inj, ap, sym, subst}
use geomqtt.Resp.Frame.{Resp2Frame}
use geomqtt.Resp.Args.{to_ascii_uppercase, frame_to_args}
use geomqtt.Mqtt.Attributes.{Settings}
use geomqtt.Resp.Handle.{
  Prefetch, after_answer, forward, run_command, run_args, handle_command, publish_write,
  answer_frame,
}
use geomqtt.World.Quiet.{Keeps}
use geomqtt.Resp.Quiet.{prefetch-Fetches, Fetches-Keeps}
use geomqtt.Metrics.{inc}
use geomqtt.World.{Env, World}

-- A frame that is no error.
abbrev pub IsError : Resp2Frame → Type 0
IsError (Resp2Frame.error e) = Unit
IsError _ = ⊥

module _ {W : Type 0} (r : Resp2Frame) where
  -- An action whose value is no error.
  no_error :
      (o : Option (Unit {0} × W)) (e : Text) (w' : W)
      → (IsError r → ⊥)
      → elim o as (λ _. Option (Resp2Frame × W)) [ none ↦ none | some (_, w) ↦ some (r, w) ]
        ≡ some (Resp2Frame.error e, w')
      → ⊥
  no_error none e w' h p = cc
  no_error (some (_, w)) e w' h p = h (subst IsError (sym (ap (λ q. q.0) (some_inj p))) tt)

module _ (env : Env) (cfg : Settings) where
  open env use {float}
  open float use {F}

  after_answer-error :
      (cmd : Text) (args : List Text) (pre : Prefetch F) (r : Resp2Frame) (e : Text)
      (w w' : World env)
      → after_answer env cfg cmd args pre r w ≡ some (Resp2Frame.error e, w')
      → w' ≡ w
  unfolding after_answer
  after_answer-error cmd args pre (Resp2Frame.error d) e w w' p = sym (ap (λ q. q.1) (some_inj p))
  after_answer-error cmd args pre (Resp2Frame.simple_string s) e w w' p =
      elim (no_error _ (publish_write env cfg cmd args pre w) e w' (λ h. h) p) [ ]
  after_answer-error cmd args pre (Resp2Frame.bulk_string s) e w w' p =
      elim (no_error _ (publish_write env cfg cmd args pre w) e w' (λ h. h) p) [ ]
  after_answer-error cmd args pre (Resp2Frame.integer n) e w w' p =
      elim (no_error _ (publish_write env cfg cmd args pre w) e w' (λ h. h) p) [ ]
  after_answer-error cmd args pre Resp2Frame.null e w w' p =
      elim (no_error _ (publish_write env cfg cmd args pre w) e w' (λ h. h) p) [ ]
  after_answer-error cmd args pre (Resp2Frame.array xs) e w w' p =
      elim (no_error _ (publish_write env cfg cmd args pre w) e w' (λ h. h) p) [ ]

  -- Nothing but the upstream and the count of commands differs.
  abbrev pub IsUnpublished : World env → World env → Type 0
  IsUnpublished w w' =
      (s : env.redis.State) × (n : ℕ) × (w'
        ≡ record w { upstream = s; metrics = record w.metrics { resp_commands = n } })

  answered :
      (name : Text) (args : List Text) (w0 : World env) (e : Text) (w w' : World env)
      (o : Option (Prefetch F × World env))
      → Keeps env w0 o
      → elim o as (λ _. Option (Resp2Frame × World env)) [
        | none ↦ none
        | some (pre, w1) ↦
            after_answer env cfg name args pre
              (answer_frame env cfg (env.redis.custom_raw args w1.upstream).1)
              (record w1 { upstream = (env.redis.custom_raw args w1.upstream).0 })
      ]
        ≡ some (Resp2Frame.error e, w')
      → (s : env.redis.State) × (w' ≡ record w0 { upstream = s })
  answered name args w0 e w w' none k p = elim k [ ]
  answered name args w0 e w w' (some (pre, w1)) (s, q) p = (
    _,
    after_answer-error name args pre _ e _ w' p
        ∙ ap {A = World env}
            (λ v. record v { upstream = (env.redis.custom_raw args w1.upstream).0 }) q,
  )

  run_args-error :
      (args : Option (List Text)) (e : Text) (w w' : World env)
      → run_args env cfg args w ≡ some (Resp2Frame.error e, w')
      → IsUnpublished w w'
  unfolding run_args run_command forward
  run_args-error none e w w' p = (_, _, sym (ap (λ q. q.1) (some_inj p)))
  run_args-error (some []) e w w' p = (_, _, sym (ap (λ q. q.1) (some_inj p)))
  run_args-error (some (name ∷ rest)) e w w' p =
      let w0 : World env = record w {
        metrics = record w.metrics { resp_commands = inc w.metrics.resp_commands };
      } in
      let kept =
        Fetches-Keeps env cfg (name ∷ rest) w0 _
          (prefetch-Fetches env cfg (to_ascii_uppercase name) (name ∷ rest) w0) in
      let (s, q) = answered _ (name ∷ rest) w0 e w w' _ kept p in
      (s, inc w.metrics.resp_commands, q)

  -- A command that is answered by an error sends nothing to a session or to the queue of the sink:
  -- of the world only the upstream, and of the counters only the one of commands, may differ.
  pub handle_command-error :
      (frame : Resp2Frame) (e : Text) (w w' : World env)
      → handle_command env cfg frame w ≡ some (Resp2Frame.error e, w')
      → IsUnpublished w w'
  unfolding handle_command
  handle_command-error frame e w w' p = run_args-error (frame_to_args frame) e w w' p
