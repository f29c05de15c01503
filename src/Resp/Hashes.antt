-- ===== src/Resp/Hashes.antt =====
-- resp.rs: what a session receives of an `HSET`, an `HMSET` or an `HDEL`.
use geomqtt.Base.{
  ℕ, suc, List, [], ◌∷◌, ◌++◌, Option, none, some, Bool, true, false, ◌≡◌, refl, ap, ◌∙◌, ◌⊎◌, inl,
  inr, Text, lit, text_eq, arith, length, ltb, strip_prefix, if◌then◌else◌,
}
use geomqtt.Base.Assoc.{lookup}
use geomqtt.Broker.Defs.{Session}
use geomqtt.Broker.Invariant.{IsValid}
use geomqtt.Fanout.Objects.{object_packet, publish_object-Sends}
use geomqtt.Fanout.Packets.{Listens, Sends}
use geomqtt.Fanout.Total.{CanEncode}
use geomqtt.Mqtt.Attributes.{Settings}
use geomqtt.Payload.Attrs.{Value, Attrs, or_else, or_else-none, or_else-if}
use geomqtt.Payload.Attrs
use geomqtt.Payload.Defs.{ObjectPayload}
use geomqtt.Resp.Args.{to_ascii_uppercase, frame_to_args}
use geomqtt.Resp.Failure.{IsError}
use geomqtt.Resp.Frame.{Resp2Frame}
use geomqtt.Resp.Handle.{
  nothing_fetched, fanout, pair_attrs, with_object, write_hash, publish_tile_attrs,
  handle_hash_write, publish_write, prefetch, run_command, run_args, handle_command,
}
use geomqtt.Resp.Runs.{response_to, begun, after_answer_runs, run_command_runs}
use geomqtt.World.{Env, World, pure, now_ms}

-- A command that writes a hash, and whether it deletes fields.
pub data WritesHash : Text → Bool → Type 0 where
  hset : WritesHash (lit "HSET") false
  hmset : WritesHash (lit "HMSET") false
  hdel : WritesHash (lit "HDEL") true

-- The value that the pairs of a command give a field: the last one, if there are several.
unfoldable pub last_value : Text → List Text → Option Value
last_value j (k ∷ v ∷ rest) =
    let later = last_value j rest in
    or_else later (if text_eq j k then some (Value.string v) else none)
last_value j _ = none

lookup-pair_attrs :
    (j : Text) (words : List Text) (out : Attrs)
    → Attrs.lookup j (pair_attrs words out) ≡ or_else (last_value j words) (Attrs.lookup j out)
unfolding pair_attrs last_value or_else
lookup-pair_attrs j [] out = refl
lookup-pair_attrs j (k ∷ []) out = refl
lookup-pair_attrs j (k ∷ v ∷ rest) out =
    lookup-pair_attrs j rest (Attrs.insert k (Value.string v) out)
    ∙ ap (or_else (last_value j rest)) (Attrs.lookup-insert j k (Value.string v) out)
    ∙ or_else-if (last_value j rest) (Attrs.lookup j out) (text_eq j k) (Value.string v)

module _ (env : Env) (cfg : Settings) (enc : CanEncode env) (id : ℕ) (s : Session) where
  open env use {redis}

  -- The attributes in the event: none of a deletion.
  abbrev pub attrs_of : Bool → List Text → Attrs
  attrs_of is_del rest = if is_del then [] else pair_attrs rest []

  attrs_of-lookup :
      (is_del : Bool) (rest : List Text) (j : Text)
      → Attrs.lookup j (attrs_of is_del rest) ≡ (if is_del then none else last_value j rest)
  unfolding Attrs.lookup or_else
  attrs_of-lookup true rest j = refl
  attrs_of-lookup false rest j = lookup-pair_attrs j rest [] ∙ or_else-none (last_value j rest)

  publish_write_runs :
      (cmd name : Text) (is_del : Bool) (words : List Text) (w : World env)
      → WritesHash cmd is_del
      → publish_write env cfg cmd (name ∷ words) nothing_fetched w
        ≡ handle_hash_write env cfg (name ∷ words) is_del w
  unfolding publish_write text_eq
  publish_write_runs cmd name is_del words w hset = refl
  publish_write_runs cmd name is_del words w hmset = refl
  publish_write_runs cmd name is_del words w hdel = refl

  prefetch_runs :
      (cmd name : Text) (is_del : Bool) (words : List Text) (w : World env)
      → WritesHash cmd is_del
      → prefetch env cfg cmd (name ∷ words) w ≡ some (nothing_fetched, w)
  unfolding prefetch text_eq
  prefetch_runs cmd name is_del words w hset = refl
  prefetch_runs cmd name is_del words w hmset = refl
  prefetch_runs cmd name is_del words w hdel = refl

  -- The tiles are left alone.
  tiles_quiet :
      (obid : Text) (is_del : Bool) (attrs : Attrs) (w : World env)
      → (cfg.enrich_attrs ≡ []) ⊎ (is_del ≡ true)
      → publish_tile_attrs env cfg obid is_del attrs w ≡ some (tt, w)
  unfolding publish_tile_attrs
  tiles_quiet obid is_del attrs w (inr e) = rw (e, publish_tile_attrs) refl
  tiles_quiet obid true attrs w (inl e) = refl
  tiles_quiet obid false attrs w (inl e) = rw (e, publish_tile_attrs) refl

  two_words : (n : ℕ) → ltb (suc (suc n)) 2 ≡ false
  two_words n = ground arith

  handle_hash_write_runs :
      (name key : Text) (is_del : Bool) (rest : List Text) (w : World env)
      → handle_hash_write env cfg (name ∷ key ∷ rest) is_del w
        ≡ write_hash env cfg rest is_del key w
  unfolding handle_hash_write
  handle_hash_write_runs name key is_del rest w =
      ap (λ b. (if b then pure tt else write_hash env cfg rest is_del key) w)
        (two_words (length rest))

  hash_write-Sends :
      (name key obid : Text) (is_del : Bool) (rest : List Text) (w : World env)
      → strip_prefix key cfg.object_key_prefix ≡ some obid
      → (cfg.enrich_attrs ≡ []) ⊎ (is_del ≡ true)
      → Listens env enc id s w
      → (w' : World env) × (handle_hash_write env cfg (name ∷ key ∷ rest) is_del w ≡ some (tt, w'))
        × Sends env enc id s
            (object_packet env enc id s obid
              (ObjectPayload.attr obid (attrs_of is_del rest) (w.clock 0)))
            w
            w'
  unfolding write_hash with_object now_ms
  hash_write-Sends name key obid is_del rest w at quiet l =
      let attrs = attrs_of is_del rest in
      let (w', ran, sent, now) =
        publish_object-Sends env enc id s (fanout env cfg) obid
          (ObjectPayload.attr obid attrs (w.clock 0)) (record w { clock = λ i. w.clock (suc i) })
          (record { valid = l.valid; registered = l.registered; connected = l.connected }) in
      let written : write_hash env cfg rest is_del key w ≡ some (tt, w') =
        rw (at, with_object)
          (ap
              (λ o. elim o as (λ _. Option (Unit {0} × World env)) [
                | none ↦ none
                | some (_, v) ↦ publish_tile_attrs env cfg obid is_del attrs v
              ])
              ran
            ∙ tiles_quiet obid is_del attrs w' quiet) in
      (
        w',
        handle_hash_write_runs name key is_del rest w ∙ written,
        record { added = sent.added; is_open = sent.is_open; broker = sent.broker },
      )

  module _ (name : Text) (cmd : Text) (is_del : Bool) (is_cmd : to_ascii_uppercase name ≡ cmd)
      (writes : WritesHash cmd is_del) (key obid : Text) (rest : List Text) where
    abbrev words : List Text
    words = name ∷ key ∷ rest

    -- The state in which the answer of Redis came.
    abbrev answered_at : World env → World env
    answered_at w = record (begun env cfg w) { upstream = (redis.custom_raw words w.upstream).0 }

    -- An `HSET`, `HMSET` or `HDEL` of an object's key is handled, and answered as Redis answers to it.
    -- If the answer is no error, a registered and connected session that has a filter for the object
    -- has been sent one `attr`, behind what waited on its channel, and any other session nothing. Its
    -- attributes give each field the value that the last pair of the command with that field gives
    -- it, and there are none for `HDEL`. This holds in a well-formed broker, as long as packets can
    -- be encoded, if no attributes go on tiles or the command is `HDEL`.
    pub handle_command-object_packet :
        (frame : Resp2Frame) (w : World env)
        → frame_to_args frame ≡ some words
        → strip_prefix key cfg.object_key_prefix ≡ some obid
        → (cfg.enrich_attrs ≡ []) ⊎ (is_del ≡ true)
        → (IsError (response_to env cfg words w.upstream) → ⊥)
        → IsValid w.broker
        → lookup id w.broker.sessions ≡ some s
        → (w.chans s.outbound).is_open ≡ true
        → (attrs : Attrs) × (w' : World env) × ((j : Text)
            → Attrs.lookup j attrs ≡ (if is_del then none else last_value j rest))
          × (handle_command env cfg frame w ≡ some (response_to env cfg words w.upstream, w'))
          × ((w'.chans s.outbound).queue
              ≡ (w.chans s.outbound).queue
                ++ object_packet env enc id s obid (ObjectPayload.attr obid attrs (w.clock 0)))
    unfolding handle_command run_args
    handle_command-object_packet frame w named at quiet accepted valid registered connected =
        let listens : Listens env enc id s (answered_at w) = record {
          valid = valid;
          registered = registered;
          connected = connected;
        } in
        let (w', ran, sent) =
          hash_write-Sends name key obid is_del rest (answered_at w) at quiet listens in
        let answered =
          after_answer_runs env cfg cmd words (response_to env cfg words w.upstream) nothing_fetched
            (answered_at w) w' accepted
            (publish_write_runs cmd name is_del (key ∷ rest) (answered_at w) writes ∙ ran) in
        let handled : run_command env cfg name (key ∷ rest) w
            ≡ some (response_to env cfg words w.upstream, w') =
          run_command_runs env cfg name (key ∷ rest) nothing_fetched w (begun env cfg w) _
            (rw is_cmd (prefetch_runs cmd name is_del (key ∷ rest) (begun env cfg w) writes))
            (rw is_cmd answered) in
        (attrs_of is_del rest, w', attrs_of-lookup is_del rest, rw named handled, sent.added)
