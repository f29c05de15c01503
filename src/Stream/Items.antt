-- ===== src/Stream/Items.antt =====
-- What a loop over a buffer does with the items in it.
use geomqtt.Base.{
  ℕ, zero, suc, ◌<◌, List, [], ◌∷◌, some, Bool, true, ◌≡◌, ◌∙◌, ap, arith, Bytes, length,
}
use geomqtt.Stream.Chunks.{joined, feed-joined, and_then, go_on, drain_item, drain_incomplete}
use geomqtt.Stream.Defs.{item, incomplete, Decoder, IsStreaming, waiting, drain, read, resume, feed}
use geomqtt.World.{Action}

-- The bytes hold these items, and then the start of one that is not complete.
pub data Holds {A : Type 0} (d : Decoder A) : Bytes → List A → Bytes → Type 0 where
  nothing : (buf : Bytes) → d.decode buf ≡ incomplete → Holds d buf [] buf
  more :
      (buf : Bytes) (a : A) (rest : Bytes) (items : List A) (left : Bytes)
      → d.decode buf ≡ item a rest
      → Holds d rest items left
      → Holds d buf (a ∷ items) left

module _ {A W : Type 0} (handle : A → Action W Bool) where
  -- The items are handled in order, and each handler says that the loop goes on.
  pub data Handles : List A → W → W → Type 0 where
    all_done : (w : W) → Handles [] w w
    handles :
        (a : A) (items : List A) (w v u : W)
        → handle a w ≡ some (true, v)
        → Handles items v u
        → Handles (a ∷ items) w u

module _ {A W : Type 0} (d : Decoder A) (handle : A → Action W Bool) (laws : IsStreaming d) where
  drain-Holds :
      (fuel : ℕ) (buf : Bytes) (items : List A) (left : Bytes) (w u : W)
      → Holds d buf items left
      → Handles handle items w u
      → length buf < fuel
      → drain d handle fuel buf w ≡ some (waiting left, u)
  unfolding go_on
  drain-Holds zero buf items left w u at ran h = absurd (omega arith)
  drain-Holds (suc fuel) buf [] left w u (nothing _ e) (all_done _) h =
      drain_incomplete d handle laws fuel buf w e
  drain-Holds (suc fuel) buf (a ∷ items) left w u (more _ _ rest _ _ e at)
        (handles _ _ _ v _ e' ran) h =
      let less = laws.is_shorter buf a rest e in
      drain_item d handle laws fuel buf a rest w e
      ∙ ap (λ o. and_then o (go_on d handle laws fuel rest)) e'
      ∙ drain-Holds fuel rest items left v u at ran (omega arith)

  -- However the bytes are cut into reads.
  pub feed-Holds :
      (chunk : Bytes) (chunks : List Bytes) (items : List A) (left : Bytes) (w u : W)
      → Holds d (joined (chunk ∷ chunks)) items left
      → Handles handle items w u
      → feed d handle (waiting []) (chunk ∷ chunks) w ≡ some (waiting left, u)
  unfolding feed resume read
  feed-Holds chunk chunks items left w u at ran =
      feed-joined d handle laws (waiting []) chunk chunks w
      ∙ ap (λ o. and_then o (λ r v. some (r, v)))
          (drain-Holds _ (joined (chunk ∷ chunks)) items left w u at ran (omega arith))
