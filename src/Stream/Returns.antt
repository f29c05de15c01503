-- ===== src/Stream/Returns.antt =====
-- The loop over a buffer never panics if the handler of an item does not.
use geomqtt.Base.{ℕ, zero, suc, ◌++◌, none, some, Bool, true, false, Bytes, length}
use geomqtt.Stream.Defs.{
  Decoded, item, incomplete, malformed, Decoder, Reading, waiting, ended, drain, read, resume,
}
use geomqtt.World.{Action}
use geomqtt.World.Total.{IsSome, IsSome-elim}

module _ {A W : Type 0} (d : Decoder A) (handle : A → Action W Bool)
    (runs : (a : A) (w : W) → IsSome (handle a w)) where
  drain-IsSome : (fuel : ℕ) (buf : Bytes) (w : W) → IsSome (drain d handle fuel buf w)
  unfolding drain
  drain-IsSome zero buf w = tt
  drain-IsSome (suc fuel) buf w = go (d.decode buf) (drain-IsSome fuel)
    where
      go_on :
          (rest : Bytes) (ok : Bool) (v : W)
          → ((u : W) → IsSome (drain d handle fuel rest u))
          → IsSome (
              (elim ok as (λ _. Action W Reading) [
                | true ↦ drain d handle fuel rest
                | false ↦ (λ u. some (ended, u))
              ])
                v)
      go_on rest true v ih = ih v
      go_on rest false v ih = tt

      go :
          (r : Decoded A)
          → ((rest : Bytes) (v : W) → IsSome (drain d handle fuel rest v))
          → IsSome (
              (elim r as (λ _. Action W Reading) [
                | item a rest ↦ (λ v. elim (handle a v) [
                  | none ↦ none
                  | some (ok, u) ↦
                      (elim ok as (λ _. Action W Reading) [
                        | true ↦ drain d handle fuel rest
                        | false ↦ (λ u. some (ended, u))
                      ])
                        u
                ])
                | incomplete ↦ (λ v. some (waiting buf, v))
                | malformed ↦ (λ v. some (ended, v))
              ])
                w)
      go (item a rest) ih =
          IsSome-elim (handle a w) _ (runs a w) (λ ok v. go_on rest ok v (ih rest))
      go incomplete ih = tt
      go malformed ih = tt

  pub resume-IsSome : (r : Reading) (chunk : Bytes) (w : W) → IsSome (resume d handle r chunk w)
  unfolding resume read
  resume-IsSome (waiting buf) chunk w = drain-IsSome (suc (length (buf ++ chunk))) (buf ++ chunk) w
  resume-IsSome ended chunk w = tt
