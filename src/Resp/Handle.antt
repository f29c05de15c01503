-- ===== src/Resp/Handle.antt =====
-- resp.rs: the handling of a command. What it reads is fetched before the command is forwarded, and
-- what it publishes after.
use geomqtt.Base.{
  ℕ, suc, List, [], ◌∷◌, ◌++◌, Option, none, some, Bool, true, false, not, ◌&&◌, Text, lit, leb,
  ◌==◌, text_eq, if◌then◌else◌, any, filter, length, ltb, get_elem?, slice_from, drop, strip_prefix,
}
use geomqtt.Base.Results.{Result, ok, err}
use geomqtt.Payload.Attrs.{Value, Attrs, is_empty}
use geomqtt.Payload.Attrs
use geomqtt.Payload.Defs.{ObjectPayload}
use geomqtt.Resp.Frame.{Resp2Frame, Resp3Frame}
use geomqtt.Resp.Args.{to_ascii_uppercase, frame_to_args, extract_geoadd_members}
use geomqtt.Resp.Convert.{resp3_to_resp2}
use geomqtt.Fanout.Defs.{Fanout, publish_object, on_geo_write, on_geo_remove, on_attr_tile}
use geomqtt.Mqtt.Attributes.{Settings, hmget_enrich, or_empty}
use geomqtt.Metrics.{inc}
use geomqtt.World.{Env, M, ◌>>=◌, ◌>>◌, pure, or_panic, for_each, count, now_ms, upstream}

-- What was fetched before the command: the set, the members and where they were.
pub record Prefetch (F : Type 0) : Type 0 where
  pub set : Option Text
  pub members : List Text
  pub positions : List (Option (F × F))

abbrev pub nothing_fetched : {F : Type 0} → Prefetch F
nothing_fetched = record { set = none; members = []; positions = [] }

-- The pairs of a field and its value, in a map; a last field with no value is left.
unfoldable pub pair_attrs : List Text → Attrs → Attrs
pair_attrs (k ∷ v ∷ rest) out = pair_attrs rest (Attrs.insert k (Value.string v) out)
pair_attrs _ out = out

-- `pre_positions.get(i).copied().flatten()`
unfoldable pub old_position : {F : Type 0} → List (Option (F × F)) → ℕ → Option (F × F)
old_position positions i = elim (get_elem? positions i) [ none ↦ none | some old ↦ old ]

module _ (env : Env) (cfg : Settings) where
  open env use {float, redis}
  open float use {F}

  -- `Fanout { .. }`, where the sink is handed on as it is
  abbrev pub fanout : Fanout
  fanout = record { enrich_zooms = cfg.enrich_zooms; with_influx = true }

  unfoldable pub geopos_batch : Text → List Text → M env (Option (List (Option (F × F))))
  geopos_batch set members = upstream env (redis.geopos set members)

  -- What a fetch leaves: nothing if it failed.
  unfoldable pub fetched : Text → List Text → Option (List (Option (F × F))) → Prefetch F
  fetched set members none = nothing_fetched
  fetched set members (some pos) = record { set = some set; members = members; positions = pos }

  unfoldable pub fetch : Text → List Text → M env (Prefetch F)
  fetch set members = do answer ← geopos_batch set members; pure (fetched set members answer)

  -- The fetch of `GEOADD`, which is left out if the command has no members.
  unfoldable pub fetch_members : Text → List Text → M env (Prefetch F)
  fetch_members set [] = pure nothing_fetched
  fetch_members set (m ∷ members) = fetch set (m ∷ members)

  unfoldable pub fetch_geoadd : List Text → M env (Prefetch F)
  fetch_geoadd args = do
    set ← or_panic (get_elem? args 1) pure
    tail ← or_panic (slice_from args 2) pure
    fetch_members set (extract_geoadd_members float tail).0

  unfoldable pub fetch_zrem : List Text → M env (Prefetch F)
  fetch_zrem args = do
    set ← or_panic (get_elem? args 1) pure
    members ← or_panic (slice_from args 2) pure
    fetch set members

  -- The part of `handle_command` that comes before the command is forwarded.
  unfoldable pub prefetch : Text → List Text → M env (Prefetch F)
  prefetch cmd args =
      if text_eq cmd (lit "GEOADD") && leb 5 (length args)
      then fetch_geoadd args
      else if text_eq cmd (lit "ZREM") && leb 3 (length args)
      then fetch_zrem args
      else pure nothing_fetched

  unfoldable pub answer_frame : Result Text (Resp3Frame F) → Resp2Frame
  answer_frame (ok frame) = resp3_to_resp2 float frame
  answer_frame (err e) = Resp2Frame.error (lit "ERR upstream: " ++ e)

  -- `args[0]`, and the rest of them
  unfoldable pub forward : List Text → M env Resp2Frame
  forward args = do
    cmd_name ← or_panic (get_elem? args 0) pure
    tail ← or_panic (slice_from args 1) pure
    answer ← upstream env (redis.custom_raw (cmd_name ∷ tail))
    pure (answer_frame answer)

  unfoldable pub count_write : M env (Unit {0})
  count_write = count env (λ m. record m { resp_geo_writes = inc m.resp_geo_writes })

  -- The loop of `GEOADD`, from the member `i` on. `new_positions[i]` panics out of range.
  unfoldable pub geoadd_members :
      Text → List (F × F) → List (Option (F × F)) → ℕ → List Text → M env (Unit {0})
  geoadd_members set new_positions pre_positions i [] = pure tt
  geoadd_members set new_positions pre_positions i (member ∷ members) =
      elim (get_elem? new_positions i) [
        | none ↦ (λ w. none)
        | some new ↦ (do
          attrs ← hmget_enrich env cfg member
          count_write
          on_geo_write env fanout set member (old_position pre_positions i) new (or_empty attrs)
          geoadd_members set new_positions pre_positions (suc i) members)
      ]

  -- The loop of `ZREM`, from the member `i` on.
  unfoldable pub zrem_members : Text → List (Option (F × F)) → ℕ → List Text → M env (Unit {0})
  zrem_members set pre_positions i [] = pure tt
  zrem_members set pre_positions i (member ∷ members) = elim (old_position pre_positions i) [
    | none ↦ zrem_members set pre_positions (suc i) members
    | some pos ↦ (do
      count_write
      on_geo_remove env fanout set member pos
      zrem_members set pre_positions (suc i) members)
  ]

  -- The part of a key behind the prefix of objects, and what is done with it.
  unfoldable pub with_object : Text → (Text → M env (Unit {0})) → M env (Unit {0})
  with_object key body = elim (strip_prefix key cfg.object_key_prefix) [
    | none ↦ pure tt
    | some obid ↦ body obid
  ]

  unfoldable pub tile_attrs : Attrs → Attrs
  tile_attrs attrs = filter (λ e. any (λ f. text_eq f e.0) cfg.enrich_attrs) attrs

  -- The fields that go on the tiles of the object.
  unfoldable pub publish_tile_attrs : Text → Bool → Attrs → M env (Unit {0})
  publish_tile_attrs obid is_del attrs =
      if not is_del && (not (length cfg.enrich_attrs == 0) && not (is_empty attrs))
      then (if is_empty (tile_attrs attrs)
          then pure tt
          else on_attr_tile env fanout obid (tile_attrs attrs))
      else pure tt

  -- The hash at a key, with the words that follow the key.
  unfoldable pub write_hash : List Text → Bool → Text → M env (Unit {0})
  write_hash rest is_del key = with_object key (λ obid. do
    let attrs = if is_del then [] else pair_attrs rest []
    ts ← now_ms env
    publish_object env fanout obid (ObjectPayload.attr obid attrs ts)
    publish_tile_attrs obid is_del attrs)

  -- The loop over the pairs starts at the word 2 and looks at no word that is not there.
  unfoldable pub handle_hash_write : List Text → Bool → M env (Unit {0})
  handle_hash_write args is_del =
      if ltb (length args) 2
      then pure tt
      else or_panic (get_elem? args 1) (write_hash (drop 2 args) is_del)

  -- One key of `DEL`.
  unfoldable pub delete_key : Text → M env (Unit {0})
  delete_key key =
      with_object key
        (λ obid. do ts ← now_ms env; publish_object env fanout obid (ObjectPayload.delete obid ts))

  unfoldable pub handle_del : List Text → M env (Unit {0})
  handle_del args = or_panic (slice_from args 1) (λ keys. for_each keys delete_key)

  unfoldable pub geoadd : List Text → Prefetch F → M env (Unit {0})
  geoadd args pre = elim pre.set [
    | none ↦ pure tt
    | some set ↦ or_panic (slice_from args 2) (λ tail.
        let (members, new_positions) = extract_geoadd_members float tail in
        geoadd_members set new_positions pre.positions 0 members)
  ]

  unfoldable pub zrem : Prefetch F → M env (Unit {0})
  zrem pre = elim pre.set [
    | none ↦ pure tt
    | some set ↦ zrem_members set pre.positions 0 pre.members
  ]

  -- What is published once the command is done.
  unfoldable pub publish_write : Text → List Text → Prefetch F → M env (Unit {0})
  publish_write cmd args pre =
      if text_eq cmd (lit "GEOADD")
      then geoadd args pre
      else if text_eq cmd (lit "ZREM")
      then zrem pre
      else if any (text_eq cmd) (lit "HSET" ∷ lit "HMSET" ∷ [])
      then handle_hash_write args false
      else if text_eq cmd (lit "HDEL")
      then handle_hash_write args true
      else if text_eq cmd (lit "DEL")
      then handle_del args
      else pure tt

  -- What follows the answer: an error ends the command.
  unfoldable pub after_answer : Text → List Text → Prefetch F → Resp2Frame → M env Resp2Frame
  after_answer cmd args pre (Resp2Frame.error e) = pure (Resp2Frame.error e)
  after_answer cmd args pre response = do publish_write cmd args pre; pure response

  -- A command that is well formed.
  unfoldable pub run_command : Text → List Text → M env Resp2Frame
  run_command name rest = do
    count env (λ m. record m { resp_commands = inc m.resp_commands })
    let cmd = to_ascii_uppercase name
    let args = name ∷ rest
    pre ← prefetch cmd args
    response ← forward args
    after_answer cmd args pre response

  unfoldable pub run_args : Option (List Text) → M env Resp2Frame
  run_args (some (name ∷ rest)) = run_command name rest
  run_args _ = pure (Resp2Frame.error (lit "ERR empty or malformed command"))

  unfoldable pub handle_command : Resp2Frame → M env Resp2Frame
  handle_command frame = run_args (frame_to_args frame)
