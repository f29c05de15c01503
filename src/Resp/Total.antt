-- ===== src/Resp/Total.antt =====
-- resp.rs: every command is answered, in `GEOADD` no index is out of range, and the sessions and their
-- filters stay as they are.
use geomqtt.Base.{
  ℕ, zero, suc, ◌+◌, List, [], ◌∷◌, Option, none, some, Bool, true, false, Text, lit, length,
  get_elem?, slice_from, ltb, ap, ◌≤◌, strip_prefix, ◌≡◌, refl, arith, text_eq, any, not, ◌&&◌,
  ◌==◌,
}
use geomqtt.Float.{F64}
use geomqtt.Payload.Attrs.{Attrs, is_empty}
use geomqtt.Resp.Frame.{Resp2Frame}
use geomqtt.Resp.Args.{frame_to_args, triples, skip_flags, extract_geoadd_members}
use geomqtt.Mqtt.Attributes.{Settings}
use geomqtt.Mqtt.Quiet.{hmget_enrich-IsQuiet}
use geomqtt.World.Quiet.{IsQuiet-IsTotal}
use geomqtt.Resp.Handle.{
  Prefetch, count_write, old_position, geoadd_members, zrem_members, with_object, tile_attrs,
  publish_tile_attrs, write_hash, handle_hash_write, delete_key, handle_del, geoadd, zrem,
  publish_write, after_answer, forward, run_command, run_args, handle_command, fanout,
}
use geomqtt.Fanout.Total.{
  CanEncode, publish_object-IsTotal, on_geo_write-IsTotal, on_geo_remove-IsTotal,
  on_attr_tile-IsTotal,
}
use geomqtt.Resp.Quiet.{Ready, Fetches, prefetch-Fetches}
use geomqtt.Resp.Runs.{begun}
use geomqtt.World.{Env, World, M, pure, or_panic, now_ms}
use geomqtt.World.Total.{
  IsSome, IsTotal, Gives-elim, IsTotal-for_each, IsTotal-if, IsTotal-option, IsTotal-some, Gives,
  Gives-value,
}

module _ (float : F64) where
  triples-length :
      (tail : List Text) → length (triples float tail).0 ≡ length (triples float tail).1
  unfolding triples
  triples-length [] = refl
  triples-length (a ∷ []) = refl
  triples-length (a ∷ b ∷ []) = refl
  triples-length (a ∷ b ∷ c ∷ rest) = omega (arith, triples-length rest)

  -- There is a position for each member, whatever the words of the command are.
  extract_geoadd_members-length :
      (tail : List Text)
      → length (extract_geoadd_members float tail).0 ≡ length (extract_geoadd_members float tail).1
  unfolding extract_geoadd_members
  extract_geoadd_members-length tail = triples-length (skip_flags tail)

get_elem?-IsSome :
    {A : Type 0} (xs : List A) (i n : ℕ) → length xs ≡ i + suc n → IsSome (get_elem? xs i)
get_elem?-IsSome [] i n h = omega (arith, h)
get_elem?-IsSome (x ∷ xs) zero n h = tt
get_elem?-IsSome (x ∷ xs) (suc i) n h = get_elem?-IsSome xs i n (omega (arith, h))

module _ (env : Env) (cfg : Settings) (enc : CanEncode env) where
  open env use {float}
  open float use {F}

  geoadd_members-IsTotal :
      (set : Text) (new : List (F × F)) (pre : List (Option (F × F))) (i : ℕ) (members : List Text)
      → length new ≡ i + length members
      → IsTotal (geoadd_members env cfg set new pre i members)
  unfolding geoadd_members count_write
  geoadd_members-IsTotal set new pre i [] h w = refl
  geoadd_members-IsTotal set new pre i (member ∷ members) h w =
      IsTotal-some (get_elem? new i) _ _ (get_elem?-IsSome new i (length members) h)
        (λ p w0.
          Gives-elim _ _ _ (IsQuiet-IsTotal env _ (hmget_enrich-IsQuiet env cfg member) w0)
            (λ attrs w1.
              Gives-elim _ _ _ (on_geo_write-IsTotal env enc (fanout env cfg) set member _ p _ _)
                (λ _. geoadd_members-IsTotal set new pre (suc i) members (omega (arith, h)))))
        w

  zrem_members-IsTotal :
      (set : Text) (pre : List (Option (F × F))) (i : ℕ) (members : List Text)
      → IsTotal (zrem_members env cfg set pre i members)
  unfolding zrem_members count_write
  zrem_members-IsTotal set pre i [] w = refl
  zrem_members-IsTotal set pre i (member ∷ members) w =
      IsTotal-option (old_position pre i) _ _ (zrem_members-IsTotal set pre (suc i) members)
        (λ pos w0.
          Gives-elim _ _ _ (on_geo_remove-IsTotal env enc (fanout env cfg) set member pos _)
            (λ _. zrem_members-IsTotal set pre (suc i) members))
        w

  publish_tile_attrs-IsTotal :
      (obid : Text) (is_del : Bool) (attrs : Attrs)
      → IsTotal (publish_tile_attrs env cfg obid is_del attrs)
  unfolding publish_tile_attrs
  publish_tile_attrs-IsTotal obid is_del attrs =
      IsTotal-if (not is_del && (not (length cfg.enrich_attrs == 0) && not (is_empty attrs))) _ _
        (IsTotal-if (is_empty (tile_attrs env cfg attrs)) _ _ (λ w. refl)
          (on_attr_tile-IsTotal env enc (fanout env cfg) obid (tile_attrs env cfg attrs)))
        (λ w. refl)

  write_hash-IsTotal :
      (rest : List Text) (is_del : Bool) (key : Text) → IsTotal (write_hash env cfg rest is_del key)
  unfolding write_hash with_object now_ms
  write_hash-IsTotal rest is_del key =
      IsTotal-option (strip_prefix key cfg.object_key_prefix) _ _ (λ _. refl)
        (λ obid w0.
          Gives-elim _ _ _ (publish_object-IsTotal env enc (fanout env cfg) obid _ _)
            (λ _. publish_tile_attrs-IsTotal obid is_del _))

  handle_hash_write-IsTotal :
      (args : List Text) (is_del : Bool) → IsTotal (handle_hash_write env cfg args is_del)
  unfolding handle_hash_write
  handle_hash_write-IsTotal [] is_del w = refl
  handle_hash_write-IsTotal (cmd ∷ []) is_del w = refl
  handle_hash_write-IsTotal (cmd ∷ key ∷ rest) is_del w =
      IsTotal-if (ltb (length (cmd ∷ key ∷ rest)) 2) _ _ (λ _. refl)
        (write_hash-IsTotal rest is_del key) w

  delete_key-IsTotal : (key : Text) → IsTotal (delete_key env cfg key)
  unfolding delete_key with_object now_ms
  delete_key-IsTotal key =
      IsTotal-option (strip_prefix key cfg.object_key_prefix) _ _ (λ _. refl)
        (λ obid w0. publish_object-IsTotal env enc (fanout env cfg) obid _ _)

  geoadd_slice-IsTotal :
      (args : List Text) (set : Text) (positions : List (Option (F × F)))
      → 2 ≤ length args
      → IsTotal (
          or_panic (slice_from args 2) (λ tail.
            geoadd_members env cfg set
              (extract_geoadd_members float tail).1
              positions
              0
              (extract_geoadd_members float tail).0))
  geoadd_slice-IsTotal [] set positions h = absurd (omega (arith, h))
  geoadd_slice-IsTotal (cmd ∷ []) set positions h = absurd (omega (arith, h))
  geoadd_slice-IsTotal (cmd ∷ key ∷ tail) set positions h =
      geoadd_members-IsTotal set _ positions 0 _
        (omega (arith, extract_geoadd_members-length float tail))

  geoadd-IsTotal :
      (args : List Text) (pre : Prefetch F) → Ready args pre → IsTotal (geoadd env cfg args pre)
  unfolding geoadd
  geoadd-IsTotal args pre = go pre.set
    where
      go :
          (o : Option Text)
          → (elim o as (λ _. Type 0) [ none ↦ Unit | some set ↦ 2 ≤ length args ])
          → IsTotal (elim o as (λ _. M env (Unit {0})) [
            | none ↦ pure tt
            | some set ↦ or_panic (slice_from args 2) (λ tail.
                geoadd_members env cfg set
                  (extract_geoadd_members float tail).1
                  pre.positions
                  0
                  (extract_geoadd_members float tail).0)
          ])
      go none h = λ w. refl
      go (some set) h = geoadd_slice-IsTotal args set pre.positions h

  zrem-IsTotal : (pre : Prefetch F) → IsTotal (zrem env cfg pre)
  unfolding zrem
  zrem-IsTotal pre =
      IsTotal-option pre.set _ _ (λ _. refl)
        (λ set. zrem_members-IsTotal set pre.positions 0 pre.members)

  publish_write-IsTotal :
      (cmd name : Text) (rest : List Text) (pre : Prefetch F)
      → Ready (name ∷ rest) pre
      → IsTotal (publish_write env cfg cmd (name ∷ rest) pre)
  unfolding publish_write handle_del
  publish_write-IsTotal cmd name rest pre ready =
      IsTotal-if (text_eq cmd (lit "GEOADD")) _ _ (geoadd-IsTotal (name ∷ rest) pre ready) (
        IsTotal-if (text_eq cmd (lit "ZREM")) _ _ (zrem-IsTotal pre) (
          IsTotal-if (any (text_eq cmd) (lit "HSET" ∷ lit "HMSET" ∷ [])) _ _
            (handle_hash_write-IsTotal (name ∷ rest) false)
            (IsTotal-if (text_eq cmd (lit "HDEL")) _ _
              (handle_hash_write-IsTotal (name ∷ rest) true)
              (IsTotal-if (text_eq cmd (lit "DEL")) _ _ (IsTotal-for_each rest _ delete_key-IsTotal)
                (λ w. refl)))))

  after_answer-IsTotal :
      (cmd name : Text) (rest : List Text) (pre : Prefetch F) (response : Resp2Frame)
      → Ready (name ∷ rest) pre
      → IsTotal (after_answer env cfg cmd (name ∷ rest) pre response)
  unfolding after_answer
  after_answer-IsTotal cmd name rest pre (Resp2Frame.error e) h w = refl
  after_answer-IsTotal cmd name rest pre (Resp2Frame.simple_string s) h w =
      Gives-elim _ _ _ (publish_write-IsTotal cmd name rest pre h w) (λ _ _. refl)
  after_answer-IsTotal cmd name rest pre (Resp2Frame.bulk_string s) h w =
      Gives-elim _ _ _ (publish_write-IsTotal cmd name rest pre h w) (λ _ _. refl)
  after_answer-IsTotal cmd name rest pre (Resp2Frame.integer n) h w =
      Gives-elim _ _ _ (publish_write-IsTotal cmd name rest pre h w) (λ _ _. refl)
  after_answer-IsTotal cmd name rest pre Resp2Frame.null h w =
      Gives-elim _ _ _ (publish_write-IsTotal cmd name rest pre h w) (λ _ _. refl)
  after_answer-IsTotal cmd name rest pre (Resp2Frame.array xs) h w =
      Gives-elim _ _ _ (publish_write-IsTotal cmd name rest pre h w) (λ _ _. refl)

  -- What is done with what was fetched.
  Fetches-elim :
      {A : Type 0} (args : List Text) (w : World env) (o : Option (Prefetch F × World env))
      (f : Prefetch F → M env A)
      → Fetches env cfg args w o
      → ((pre : Prefetch F) → Ready args pre → IsTotal (f pre))
      → Gives w.broker
          (elim o as (λ _. Option (A × World env)) [ none ↦ none | some (pre, w1) ↦ f pre w1 ])
  Fetches-elim args w none f h k = elim h [ ]
  Fetches-elim args w (some (pre, w1)) f ((s, e), ready) k =
      Gives-elim w.broker (some (pre, w1)) (λ _. f pre) (ap (λ v. v.broker) e) (λ _. k pre ready)

  run_args-IsTotal : (args : Option (List Text)) → IsTotal (run_args env cfg args)
  unfolding run_args run_command forward
  run_args-IsTotal none w = refl
  run_args-IsTotal (some []) w = refl
  run_args-IsTotal (some (name ∷ rest)) w =
      Fetches-elim (name ∷ rest) (begun env cfg w) _ _ (prefetch-Fetches env cfg _ (name ∷ rest) _)
        (λ pre ready w1. after_answer-IsTotal _ name rest pre _ ready _)

  pub handle_command-IsTotal : (frame : Resp2Frame) → IsTotal (handle_command env cfg frame)
  unfolding handle_command
  handle_command-IsTotal frame = run_args-IsTotal (frame_to_args frame)

  -- Every command, whatever its words are and whatever the upstream answers, is answered: no slice
  -- of its words is out of range, no index of a word outside the loops over pairs and triples, and
  -- no index of a new position, as long as each PUBLISH packet can be encoded.
  pub handle_command-answers :
      (frame : Resp2Frame) (w : World env)
      → (out : Resp2Frame × World env) × (handle_command env cfg frame w ≡ some out)
  handle_command-answers frame w = Gives-value w.broker _ (handle_command-IsTotal frame w)
