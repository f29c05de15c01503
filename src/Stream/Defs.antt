-- ===== src/Stream/Defs.antt =====
-- The buffer and the loop over it: `handle_client` in resp.rs, `handle_tcp` and `handle_ws` in mqtt.rs.
use geomqtt.Base.{ℕ, zero, suc, ◌≡◌, ◌<◌, List, [], ◌∷◌, ◌++◌, Bool, true, false, Bytes, length}
use geomqtt.World.{Action, ◌>>=◌, pure}

-- What a decoder makes of a buffer: an item and the bytes behind it, nothing as yet, or an error.
pub data Decoded (A : Type 0) : Type 0 where
  item : A → Bytes → Decoded A
  incomplete malformed : Decoded A

-- The library's decoder.
pub record Decoder (A : Type 0) : Type 0 where
  pub decode : Bytes → Decoded A

-- Items are self-delimiting: what is found at the front of a buffer does not depend on the bytes
-- that are still to come, and it takes at least one byte.
pub record IsStreaming {A : Type 0} (d : Decoder A) : Type 0 where
  pub is_shorter :
      (buf : Bytes) (a : A) (rest : Bytes) → d.decode buf ≡ item a rest → length rest < length buf
  pub item_stays :
      (buf : Bytes) (a : A) (rest more : Bytes)
      → d.decode buf ≡ item a rest
      → d.decode (buf ++ more) ≡ item a (rest ++ more)
  pub malformed_stays :
      (buf more : Bytes) → d.decode buf ≡ malformed → d.decode (buf ++ more) ≡ malformed

-- The connection waits for more bytes, or has ended by an error.
pub data Reading : Type 0 where
  waiting : Bytes → Reading
  ended : Reading

module _ {A W : Type 0} (d : Decoder A) (handle : A → Action W Bool) where
  -- The inner loop, with the handler's answer whether it goes on.
  unfoldable pub drain : ℕ → Bytes → Action W Reading
  drain zero buf = pure (waiting buf)
  drain (suc fuel) buf = elim (d.decode buf) [
    | item a rest ↦ handle a >>= (λ ok. elim ok [ true ↦ drain fuel rest | false ↦ pure ended ])
    | incomplete ↦ pure (waiting buf)
    | malformed ↦ pure ended
  ]

  -- One read: each item takes a byte or more, so the fuel is enough.
  unfoldable pub read : Bytes → Bytes → Action W Reading
  read buf chunk = drain (suc (length (buf ++ chunk))) (buf ++ chunk)

  unfoldable pub resume : Reading → Bytes → Action W Reading
  resume (waiting buf) chunk = read buf chunk
  resume ended chunk = pure ended

  -- The outer loop over what arrives.
  unfoldable pub feed : Reading → List Bytes → Action W Reading
  feed r [] = pure r
  feed r (chunk ∷ chunks) = resume r chunk >>= λ r'. feed r' chunks
