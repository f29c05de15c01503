-- ===== src/Tests/Bytewise.antt =====
-- A decoder whose items are single bytes.
use geomqtt.Base.{
  ℕ, [], ◌∷◌, ◌++◌, Option, none, some, ◌≡◌, ◌<◌, refl, ap, subst, ◌∙◌, arith, Bytes, length,
}
use geomqtt.Stream.Defs.{Decoder, Decoded, item, incomplete, malformed, IsStreaming}

module _ {A : Type 0} (of_byte : ℕ → Option A) where
  abbrev first : ℕ → Bytes → Decoded A
  first c rest = elim (of_byte c) [ none ↦ malformed | some a ↦ item a rest ]

  abbrev decode_byte : Bytes → Decoded A
  decode_byte [] = incomplete
  decode_byte (c ∷ rest) = first c rest

  abbrev pub bytewise : Decoder A
  bytewise = record { decode = decode_byte }

  first_rest :
      (o : Option A) (a : A) (tail rest : Bytes)
      → elim o as (λ _. Decoded A) [ none ↦ malformed | some b ↦ item b tail ] ≡ item a rest
      → tail ≡ rest
  first_rest none a tail rest e = cc
  first_rest (some b) a tail rest e = cc

  extend : Bytes → Decoded A → Decoded A
  extend more (item a rest) = item a (rest ++ more)
  extend more incomplete = incomplete
  extend more malformed = malformed

  first_extend :
      (o : Option A) (tail more : Bytes)
      → elim o as (λ _. Decoded A) [ none ↦ malformed | some a ↦ item a (tail ++ more) ]
        ≡ extend more (elim o as (λ _. Decoded A) [ none ↦ malformed | some a ↦ item a tail ])
  unfolding extend
  first_extend none tail more = refl
  first_extend (some a) tail more = refl

  is_shorter :
      (buf : Bytes) (a : A) (rest : Bytes)
      → decode_byte buf ≡ item a rest
      → length rest < length buf
  is_shorter [] a rest e = cc
  is_shorter (c ∷ tail) a rest e =
      subst (λ r. length r < length (c ∷ tail)) (first_rest (of_byte c) a tail rest e) (omega arith)

  item_stays :
      (buf : Bytes) (a : A) (rest more : Bytes)
      → decode_byte buf ≡ item a rest
      → decode_byte (buf ++ more) ≡ item a (rest ++ more)
  unfolding extend
  item_stays [] a rest more e = cc
  item_stays (c ∷ tail) a rest more e = first_extend (of_byte c) tail more ∙ ap (extend more) e

  malformed_stays :
      (buf more : Bytes) → decode_byte buf ≡ malformed → decode_byte (buf ++ more) ≡ malformed
  unfolding extend
  malformed_stays [] more e = cc
  malformed_stays (c ∷ tail) more e = first_extend (of_byte c) tail more ∙ ap (extend more) e

  pub bytewise-IsStreaming : IsStreaming bytewise
  bytewise-IsStreaming = record {
    is_shorter = is_shorter;
    item_stays = item_stays;
    malformed_stays = malformed_stays;
  }
