-- ===== src/Stream/Chunks.antt =====
-- However the bytes are cut into reads, the same items are handled.
use geomqtt.Base.{
  ℕ, zero, suc, ◌<◌, List, [], ◌∷◌, ◌++◌, append-nil, append_assoc, Option, none, some, Bool, true,
  false, ◌≡◌, refl, sym, ◌∙◌, ap, arith, Bytes, length, ◌⊎◌, inl, inr,
}
use geomqtt.World.{Action, pure}
use geomqtt.Stream.Defs.{
  Decoded, item, incomplete, malformed, Decoder, IsStreaming, Reading, waiting, ended, drain, read,
  resume, feed,
}

-- The bytes of all reads.
abbrev pub joined : List Bytes → Bytes
joined [] = []
joined (c ∷ cs) = c ++ joined cs

Decoded-cases :
    {A : Type 0} (r : Decoded A)
    → ((a : A) × (rest : Bytes) × (r ≡ item a rest)) ⊎ ((r ≡ incomplete) ⊎ (r ≡ malformed))
Decoded-cases (item a rest) = inl (a, rest, refl)
Decoded-cases incomplete = inr (inl refl)
Decoded-cases malformed = inr (inr refl)

-- What is done with the value and the next state, if there is no panic.
module _ {A W : Type 0} where
  abbrev pub and_then : {B : Type 0} → Option (A × W) → (A → W → Option (B × W)) → Option (B × W)
  and_then o k = elim o [ none ↦ none | some (a, w) ↦ k a w ]

  pub and_then_congr :
      {B : Type 0} (o : Option (A × W)) (k l : A → W → Option (B × W))
      → ((a : A) (w : W) → k a w ≡ l a w)
      → and_then o k ≡ and_then o l
  and_then_congr none k l h = refl
  and_then_congr (some (a, w)) k l h = h a w

  and_then_assoc :
      {B C : Type 0} (o : Option (A × W)) (k : A → W → Option (B × W)) (l : B → W → Option (C × W))
      → elim (and_then o k) as (λ _. Option (C × W)) [ none ↦ none | some (b, w) ↦ l b w ]
        ≡ and_then o (λ a w. elim (k a w) [ none ↦ none | some (b, w') ↦ l b w' ])
  and_then_assoc none k l = refl
  and_then_assoc (some (a, w)) k l = refl

module _ {A W : Type 0} (d : Decoder A) (handle : A → Action W Bool) (laws : IsStreaming d) where
  unfoldable pub go_on : ℕ → Bytes → Bool → Action W Reading
  go_on fuel rest ok = elim ok [ true ↦ drain d handle fuel rest | false ↦ pure ended ]

  pub drain_item :
      (fuel : ℕ) (buf : Bytes) (a : A) (rest : Bytes) (w : W)
      → d.decode buf ≡ item a rest
      → drain d handle (suc fuel) buf w ≡ and_then (handle a w) (go_on fuel rest)
  unfolding drain go_on
  drain_item fuel buf a rest w e = rw (e, drain) refl

  pub drain_incomplete :
      (fuel : ℕ) (buf : Bytes) (w : W)
      → d.decode buf ≡ incomplete
      → drain d handle (suc fuel) buf w ≡ some (waiting buf, w)
  unfolding drain
  drain_incomplete fuel buf w e = rw (e, drain) refl

  drain_malformed :
      (fuel : ℕ) (buf : Bytes) (w : W)
      → d.decode buf ≡ malformed
      → drain d handle (suc fuel) buf w ≡ some (ended, w)
  unfolding drain
  drain_malformed fuel buf w e = rw (e, drain) refl

  go_on_congr :
      (f g : ℕ) (rest : Bytes)
      → ((v : W) → drain d handle f rest v ≡ drain d handle g rest v)
      → (ok : Bool) (v : W) → go_on f rest ok v ≡ go_on g rest ok v
  unfolding go_on
  go_on_congr f g rest h true v = h v
  go_on_congr f g rest h false v = refl

  -- The loop does not depend on its fuel, as long as that is larger than the buffer.
  drain_fuel :
      (f g : ℕ) (buf : Bytes) (w : W)
      → length buf < f
      → length buf < g
      → drain d handle f buf w ≡ drain d handle g buf w
  drain_fuel zero g buf w hf hg = absurd (omega arith)
  drain_fuel (suc f) zero buf w hf hg = absurd (omega arith)
  drain_fuel (suc f) (suc g) buf w hf hg = elim (Decoded-cases (d.decode buf)) [
    | inl (a, rest, e) ↦
        let less = laws.is_shorter buf a rest e in
        drain_item f buf a rest w e
        ∙ and_then_congr (handle a w) (go_on f rest) (go_on g rest)
            (go_on_congr f g rest (λ v. drain_fuel f g rest v (omega arith) (omega arith)))
        ∙ sym (drain_item g buf a rest w e)
    | inr (inl e) ↦ drain_incomplete f buf w e ∙ sym (drain_incomplete g buf w e)
    | inr (inr e) ↦ drain_malformed f buf w e ∙ sym (drain_malformed g buf w e)
  ]

  -- What is left when a reading has been gone through is read on with the next bytes.
  then_read : Bytes → Reading → Action W Reading
  then_read more r = resume d handle r more

  go_on-append :
      (f g : ℕ) (rest more : Bytes)
      → ((v : W)
          → and_then (drain d handle f rest v) (then_read more) ≡ drain d handle g (rest ++ more) v)
      → (ok : Bool) (v : W)
      → and_then (go_on f rest ok v) (then_read more) ≡ go_on g (rest ++ more) ok v
  unfolding go_on then_read resume
  go_on-append f g rest more h true v = h v
  go_on-append f g rest more h false v = refl

  -- To read some bytes and then some more is to read them at once.
  drain-append :
      (f g : ℕ) (buf more : Bytes) (w : W)
      → length buf < f
      → length (buf ++ more) < g
      → and_then (drain d handle f buf w) (then_read more) ≡ drain d handle g (buf ++ more) w
  drain-append zero g buf more w hf hg = absurd (omega arith)
  drain-append (suc f) zero buf more w hf hg = absurd (omega arith)
  drain-append (suc f) (suc g) buf more w hf hg = elim (Decoded-cases (d.decode buf)) [
    | inl (a, rest, e) ↦
        let less = laws.is_shorter buf a rest e in
        let e' = laws.item_stays buf a rest more e in
        let less' = laws.is_shorter (buf ++ more) a (rest ++ more) e' in
        ap (λ o. and_then o (then_read more)) (drain_item f buf a rest w e)
        ∙ and_then_assoc (handle a w) (go_on f rest) (then_read more)
        ∙ and_then_congr (handle a w) _ (go_on g (rest ++ more)) (
            go_on-append f g rest more
              (λ v. drain-append f g rest more v (omega arith) (omega arith)))
        ∙ sym (drain_item g (buf ++ more) a (rest ++ more) w e')
    | inr (inl e) ↦
        ap (λ o. and_then o (then_read more)) (drain_incomplete f buf w e)
        ∙ unfold then_read resume read in drain_fuel _ (suc g) (buf ++ more) w (omega arith) hg
    | inr (inr e) ↦
        ap (λ o. and_then o (then_read more)) (drain_malformed f buf w e)
        ∙ unfold then_read resume in
          sym (drain_malformed g (buf ++ more) w (laws.malformed_stays buf more e))
  ]

  read-append :
      (buf a b : Bytes) (w : W)
      → and_then (read d handle buf a w) (then_read b) ≡ read d handle buf (a ++ b) w
  unfolding read
  read-append buf a b w =
      drain-append _ (suc (length (buf ++ a ++ b))) (buf ++ a) b w (omega arith)
        (rw append_assoc (omega arith))
      ∙ rw append_assoc refl

  -- Two reads are as good as one.
  feed-append :
      (r : Reading) (a b : Bytes) (cs : List Bytes) (w : W)
      → feed d handle r (a ∷ b ∷ cs) w ≡ feed d handle r ((a ++ b) ∷ cs) w
  unfolding feed
  feed-append ended a b cs w = unfold resume in refl
  feed-append (waiting buf) a b cs w =
      unfold resume then_read in
      sym (and_then_assoc (read d handle buf a w) (then_read b) (λ r. feed d handle r cs))
      ∙ ap (λ o. and_then o (λ r. feed d handle r cs)) (read-append buf a b w)

  pub feed-joined :
      (r : Reading) (c : Bytes) (cs : List Bytes) (w : W)
      → feed d handle r (c ∷ cs) w ≡ feed d handle r (joined (c ∷ cs) ∷ []) w
  feed-joined r c [] w = rw append-nil refl
  feed-joined r c (b ∷ cs) w =
      feed-append r c b cs w ∙ feed-joined r (c ++ b) cs w ∙ rw append_assoc refl

  -- Two ways to cut the same bytes into reads give the same.
  pub feed_cut :
      (r : Reading) (a b : Bytes) (cs ds : List Bytes) (w : W)
      → joined (a ∷ cs) ≡ joined (b ∷ ds)
      → feed d handle r (a ∷ cs) w ≡ feed d handle r (b ∷ ds) w
  feed_cut r a b cs ds w h = feed-joined r a cs w ∙ rw h refl ∙ sym (feed-joined r b ds w)
