-- ===== src/World/Quiet.antt =====
-- Actions that touch nothing but the upstream: reads of Redis, and what is made of them.
use geomqtt.Base.{Option, none, some, Bool, true, false, ◌≡◌, ◌∙◌, ap, if◌then◌else◌}
use geomqtt.World.{Env, World, M}
use geomqtt.World.Total.{Gives, IsTotal}

module _ (env : Env) where
  -- There is a value, and of the world only the upstream may differ.
  abbrev pub Keeps : {A : Type 0} → World env → Option (A × World env) → Type 0
  Keeps w none = ⊥
  Keeps w (some (a, w')) = (s : env.redis.State) × (w' ≡ record w { upstream = s })

  abbrev pub IsQuiet : {A : Type 0} → M env A → Type 0
  IsQuiet m = (w : World env) → Keeps w (m w)

  pub IsQuiet-if :
      {A : Type 0} (b : Bool) (m k : M env A) → IsQuiet m → IsQuiet k → IsQuiet (if b then m else k)
  IsQuiet-if true m k hm hk = hm
  IsQuiet-if false m k hm hk = hk

  Keeps-trans :
      {A : Type 0} (w w1 : World env) (s : env.redis.State) (o : Option (A × World env))
      → w1 ≡ record w { upstream = s }
      → Keeps w1 o
      → Keeps w o
  Keeps-trans w w1 s none e h = h
  Keeps-trans w w1 s (some (a, w2)) e (t, k) =
      (t, k ∙ ap {A = World env} (λ v. record v { upstream = t }) e)

  pub Keeps-elim :
      {A B : Type 0} (w : World env) (o : Option (A × World env))
      (f : A → World env → Option (B × World env))
      → Keeps w o
      → ((a : A) (v : World env) → Keeps v (f a v))
      → Keeps w (elim o [ none ↦ none | some (a, v) ↦ f a v ])
  Keeps-elim w none f h k = h
  Keeps-elim w (some (a, w1)) f (s, e) k = Keeps-trans w w1 s (f a w1) e (k a w1)

  IsQuiet-option :
      {X A : Type 0} (o : Option X) (m : M env A) (f : X → M env A)
      → IsQuiet m
      → ((x : X) → IsQuiet (f x))
      → IsQuiet (elim o [ none ↦ m | some x ↦ f x ])
  IsQuiet-option none m f hm hf = hm
  IsQuiet-option (some x) m f hm hf = hf x

  pub IsQuiet-IsTotal : {A : Type 0} (m : M env A) → IsQuiet m → IsTotal m
  IsQuiet-IsTotal m h w = go (m w) (h w)
    where
      go : {A : Type 0} (o : Option (A × World env)) → Keeps w o → Gives w.broker o
      go none k = k
      go (some (a, w')) (s, e) = ap (λ v. v.broker) e

  -- The value and the state of the upstream.
  pub Keeps-value :
      {A : Type 0} (w : World env) (o : Option (A × World env))
      → Keeps w o
      → (a : A) × (s : env.redis.State) × (o ≡ some (a, record w { upstream = s }))
  Keeps-value w none h = elim h [ ]
  Keeps-value w (some (a, w')) (s, e) = (a, s, ap (λ v. some (a, v)) e)
