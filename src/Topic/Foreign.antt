-- ===== src/Topic/Foreign.antt =====
-- Sets whose name holds a colon: other nodes read another topic, or none, from the channel.
use geomqtt.Base.{
  ℕ, List, [], ◌∷◌, ◌++◌, some, ◌≡◌, ◌≢◌, sym, ap, ◌∙◌, Text, lit, Lacks, splitn, splitn-append,
  append_assoc, strip_prefix, strip_prefix-append,
}
use geomqtt.Topic.Names.{
  tile_topic, redis_tile_channel, topic_of_parts, redis_channel_to_mqtt_topic,
}

differ_at_slash : (a s t : Text) → a ++ b'/' ∷ s ≢ a ++ b':' ∷ t
differ_at_slash a s t e =
    let p : some (b'/' ∷ s) ≡ some (b':' ∷ t) =
      sym (strip_prefix-append a (b'/' ∷ s))
      ∙ ap (λ u. strip_prefix u a) e
      ∙ strip_prefix-append a (b':' ∷ t) in
    cc p

topic_of_parts-head :
    (a : Text) (parts : List Text) (t : Text)
    → topic_of_parts (a ∷ parts) ≡ some (lit "geo/" ++ t)
    → (u : Text) × (t ≡ a ++ b'/' ∷ u)
unfolding topic_of_parts
topic_of_parts-head a (z ∷ x ∷ y ∷ []) t h = (z ++ b'/' ∷ (x ++ b'/' ∷ y), cc)
topic_of_parts-head a _ t h = cc

-- A tile of a set whose name holds a colon is never published under its topic on the other nodes.
pub channel-tile_colon :
    (a b : Text) (z x y : ℕ)
    → Lacks b':' a
    → redis_channel_to_mqtt_topic (redis_tile_channel (a ++ b':' ∷ b) z x y)
      ≢ some (tile_topic (a ++ b':' ∷ b) z x y)
unfolding redis_channel_to_mqtt_topic redis_tile_channel tile_topic strip_prefix
channel-tile_colon a b z x y ha e =
    let f : topic_of_parts (a ∷ splitn 3 _ b':') ≡ some _ =
      (rw (append_assoc, splitn-append 2 a _ b':' ha) at e) in
    let (u, p) = topic_of_parts-head a _ _ f in differ_at_slash a u _ (sym (rw append_assoc at p))
