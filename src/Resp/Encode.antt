-- ===== src/Resp/Encode.antt =====
-- resp.rs: `encode_resp2`, whose buffer grows until the frame fits. The encoder is the library's.
use geomqtt.Base.{
  ℕ, zero, suc, ◌+◌, ◌*◌, ◌≤◌, ◌<◌, [], Option, none, some, ◌≡◌, refl, arith, Bytes, ◌⊎◌, inl, inr,
}
use geomqtt.Resp.Frame.{Resp2Frame}

-- What `encode_bytes` gives: the bytes that it wrote, how many are missing, or another error.
pub data Encoded : Type 0 where
  written : Bytes → Encoded
  too_small : ℕ → Encoded
  refused : Encoded

-- The encoder, by the length of the buffer.
pub record Codec : Type 0 where
  pub encode_bytes : ℕ → Resp2Frame → Encoded

-- The frame has an encoding, which is written to every buffer that is long enough for it; a shorter
-- buffer is refused as too small.
pub record HasEncoding (codec : Codec) (frame : Resp2Frame) (size : ℕ) (bytes : Bytes)
    : Type 0 where
  pub fits : (len : ℕ) → size ≤ len → codec.encode_bytes len frame ≡ written bytes
  pub is_short :
      (len : ℕ) → len < size → (need : ℕ) × (codec.encode_bytes len frame ≡ too_small need)

module _ (codec : Codec) (frame : Resp2Frame) where
  -- The loop from a buffer of a given length on; `none` if the fuel runs out.
  unfoldable pub encode_loop : ℕ → ℕ → Option Bytes
  encode_loop zero len = none
  encode_loop (suc fuel) len = elim (codec.encode_bytes len frame) [
    | written bytes ↦ some bytes
    | too_small extra ↦ encode_loop fuel (len + extra + 64)
    | refused ↦ some []
  ]

  unfoldable pub encode_resp2 : ℕ → Option Bytes
  encode_resp2 fuel = encode_loop fuel 1024

  le_or_lt : (a b : ℕ) → (a ≤ b) ⊎ (b < a)
  le_or_lt a b = ground arith

  encode_loop-returns :
      (size fuel len : ℕ) (bytes : Bytes)
      → HasEncoding codec frame size bytes
      → size ≤ len + 64 * fuel
      → encode_loop (suc fuel) len ≡ some bytes
  unfolding encode_loop
  encode_loop-returns size zero len bytes e h = rw (e.fits len (omega arith), encode_loop) refl
  encode_loop-returns size (suc fuel) len bytes e h = elim (le_or_lt size len) [
    | inl enough ↦ rw (e.fits len enough, encode_loop) refl
    | inr short ↦
        let (need, q) = e.is_short len short in
        rw (q, encode_loop) (encode_loop-returns size fuel (len + need + 64) bytes e (omega arith))
  ]

  -- The loop ends with the encoding of the frame after one round for each 64 bytes of it, and one
  -- more, at most.
  pub encode_resp2-returns :
      (size fuel : ℕ) (bytes : Bytes)
      → HasEncoding codec frame size bytes
      → size ≤ 64 * fuel
      → encode_resp2 (suc fuel) ≡ some bytes
  unfolding encode_resp2
  encode_resp2-returns size fuel bytes e h =
      encode_loop-returns size fuel 1024 bytes e (omega arith)
