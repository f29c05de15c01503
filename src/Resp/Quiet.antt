-- ===== src/Resp/Quiet.antt =====
-- resp.rs: what `handle_command` does before the answer is there touches nothing but the upstream, and
-- no index that it takes is out of range.
use geomqtt.Base.{
  ℕ, ◌≤◌, List, [], ◌∷◌, Option, none, some, Bool, true, Text, lit, length, ◌≡◌, refl, arith,
  text_eq, ◌&&◌, leb, Bool-cases, inl, inr,
}
use geomqtt.Mqtt.Attributes.{Settings}
use geomqtt.Resp.Handle.{
  Prefetch, geopos_batch, fetched, fetch, fetch_members, fetch_geoadd, fetch_zrem, prefetch,
}
use geomqtt.World.Quiet.{Keeps}
use geomqtt.World.{Env, World}

-- If something was fetched, the command has a word at 1 and words from 2 on.
abbrev pub Ready : {F : Type 0} → List Text → Prefetch F → Type 0
Ready args pre = elim pre.set [ none ↦ Unit | some set ↦ 2 ≤ length args ]

module _ (env : Env) (cfg : Settings) where
  open env use {float, redis}
  open float use {F}

  -- There is a value, that fits the words, and of the world only the upstream may differ.
  abbrev pub Fetches : List Text → World env → Option (Prefetch F × World env) → Type 0
  Fetches args w none = ⊥
  Fetches args w (some (pre, w')) =
      ((s : env.redis.State) × (w' ≡ record w { upstream = s })) × Ready args pre

  pub Fetches-Keeps :
      (args : List Text) (w : World env) (o : Option (Prefetch F × World env))
      → Fetches args w o
      → Keeps env w o
  Fetches-Keeps args w none h = h
  Fetches-Keeps args w (some (pre, w')) h = h.0

  fetched-Ready :
      (args : List Text) (set : Text) (members : List Text) (o : Option (List (Option (F × F))))
      → 2 ≤ length args
      → Ready args (fetched env cfg set members o)
  unfolding fetched
  fetched-Ready args set members none h = tt
  fetched-Ready args set members (some pos) h = h

  fetch-Fetches :
      (args : List Text) (set : Text) (members : List Text) (w : World env)
      → 2 ≤ length args
      → Fetches args w (fetch env cfg set members w)
  unfolding fetch geopos_batch
  fetch-Fetches args set members w h = ((_, refl), fetched-Ready args set members _ h)

  fetch_members-Fetches :
      (args : List Text) (set : Text) (members : List Text) (w : World env)
      → 2 ≤ length args
      → Fetches args w (fetch_members env cfg set members w)
  unfolding fetch_members
  fetch_members-Fetches args set [] w h = ((_, refl), tt)
  fetch_members-Fetches args set (m ∷ members) w h = fetch-Fetches args set (m ∷ members) w h

  fetch_geoadd-Fetches :
      (args : List Text) (w : World env)
      → 2 ≤ length args
      → Fetches args w (fetch_geoadd env cfg args w)
  unfolding fetch_geoadd
  fetch_geoadd-Fetches [] w h = absurd (omega (arith, h))
  fetch_geoadd-Fetches (cmd ∷ []) w h = absurd (omega (arith, h))
  fetch_geoadd-Fetches (cmd ∷ set ∷ tail) w h = fetch_members-Fetches (cmd ∷ set ∷ tail) set _ w h

  fetch_zrem-Fetches :
      (args : List Text) (w : World env)
      → 2 ≤ length args
      → Fetches args w (fetch_zrem env cfg args w)
  unfolding fetch_zrem
  fetch_zrem-Fetches [] w h = absurd (omega (arith, h))
  fetch_zrem-Fetches (cmd ∷ []) w h = absurd (omega (arith, h))
  fetch_zrem-Fetches (cmd ∷ set ∷ members) w h = fetch-Fetches (cmd ∷ set ∷ members) set members w h

  long_enough : (b : Bool) (m n : ℕ) → 2 ≤ m → (b && leb m n) ≡ true → 2 ≤ n
  long_enough b m n h e = ground arith

  -- The guards on the length keep every index in range.
  pub prefetch-Fetches :
      (cmd : Text) (args : List Text) (w : World env) → Fetches args w (prefetch env cfg cmd args w)
  unfolding prefetch
  prefetch-Fetches cmd args w =
      elim (Bool-cases (text_eq cmd (lit "GEOADD") && leb 5 (length args))) [
        | inl e ↦ rw e (fetch_geoadd-Fetches args w (long_enough _ 5 _ (omega arith) e))
        | inr e ↦ rw e (elim (Bool-cases (text_eq cmd (lit "ZREM") && leb 3 (length args))) [
          | inl e' ↦ rw e' (fetch_zrem-Fetches args w (long_enough _ 3 _ (omega arith) e'))
          | inr e' ↦ rw e' ((_, refl), tt)
        ])
      ]
