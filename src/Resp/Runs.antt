-- ===== src/Resp/Runs.antt =====
-- resp.rs: a command that is well formed, from its parts.
use geomqtt.Base.{List, ◌∷◌, Option, some, ◌≡◌, refl, Text}
use geomqtt.Metrics.{inc}
use geomqtt.Mqtt.Attributes.{Settings}
use geomqtt.Resp.Args.{to_ascii_uppercase}
use geomqtt.Resp.Failure.{IsError}
use geomqtt.Resp.Frame.{Resp2Frame}
use geomqtt.Resp.Handle.{
  Prefetch, publish_write, after_answer, answer_frame, forward, prefetch, run_command,
}
use geomqtt.World.{Env, World, ◌>>=◌, ◌>>◌}

module _ (env : Env) (cfg : Settings) where
  open env use {float, redis}
  open float use {F}

  -- What is answered, as Redis answers to the words in a state.
  abbrev pub response_to : List Text → env.redis.State → Resp2Frame
  response_to words u = answer_frame env cfg (redis.custom_raw words u).1

  -- The state after the command is counted.
  abbrev pub begun : World env → World env
  begun w = record w { metrics = record w.metrics { resp_commands = inc w.metrics.resp_commands } }

  pub after_answer_runs :
      (cmd : Text) (words : List Text) (r : Resp2Frame) (pre : Prefetch F) (w w' : World env)
      → (IsError r → ⊥)
      → publish_write env cfg cmd words pre w ≡ some (tt, w')
      → after_answer env cfg cmd words pre r w ≡ some (r, w')
  unfolding after_answer
  after_answer_runs cmd words (Resp2Frame.error e) pre w w' no_error ran = elim (no_error tt) [ ]
  after_answer_runs cmd words (Resp2Frame.simple_string b) pre w w' no_error ran =
      rw (ran, ◌>>=◌, ◌>>◌) refl
  after_answer_runs cmd words (Resp2Frame.bulk_string b) pre w w' no_error ran =
      rw (ran, ◌>>=◌, ◌>>◌) refl
  after_answer_runs cmd words (Resp2Frame.integer n) pre w w' no_error ran =
      rw (ran, ◌>>=◌, ◌>>◌) refl
  after_answer_runs cmd words Resp2Frame.null pre w w' no_error ran = rw (ran, ◌>>=◌, ◌>>◌) refl
  after_answer_runs cmd words (Resp2Frame.array xs) pre w w' no_error ran =
      rw (ran, ◌>>=◌, ◌>>◌) refl

  pub run_command_runs :
      (name : Text) (rest : List Text) (pre : Prefetch F) (w w1 : World env)
      (o : Option (Resp2Frame × World env))
      → prefetch env cfg (to_ascii_uppercase name) (name ∷ rest) (begun w) ≡ some (pre, w1)
      → after_answer env cfg
          (to_ascii_uppercase name)
          (name ∷ rest)
          pre
          (response_to (name ∷ rest) w1.upstream)
          (record w1 { upstream = (redis.custom_raw (name ∷ rest) w1.upstream).0 })
        ≡ o
      → run_command env cfg name rest w ≡ o
  unfolding run_command forward
  run_command_runs name rest pre w w1 o e e' = rw (e, ◌>>=◌, ◌>>◌) e'
