-- ===== src/Resp/Convert.antt =====
-- resp.rs: the upstream's answer, which is of version 3 of the protocol, as one of version 2.
use geomqtt.Base.{pos, lit, from_utf8_lossy, if◌then◌else◌}
use geomqtt.Resp.Frame.{Resp2Frame, Resp2Frames, Resp3Frame, Resp3Frames, Resp3Pairs}
use geomqtt.Float.{F64}

module _ (float : F64) where
  open float use {F, show_f64}

  unfoldable mutual
    pub resp3_to_resp2 : Resp3Frame F → Resp2Frame
    resp3_to_resp2 (Resp3Frame.simple_string d) = Resp2Frame.simple_string d
    resp3_to_resp2 (Resp3Frame.blob_string d) = Resp2Frame.bulk_string d
    resp3_to_resp2 (Resp3Frame.simple_error d) = Resp2Frame.error d
    resp3_to_resp2 (Resp3Frame.blob_error d) = Resp2Frame.error (from_utf8_lossy d)
    resp3_to_resp2 (Resp3Frame.number d) = Resp2Frame.integer d
    resp3_to_resp2 (Resp3Frame.double d) = Resp2Frame.bulk_string (show_f64 d)
    resp3_to_resp2 (Resp3Frame.boolean d) = Resp2Frame.integer (pos (if d then 1 else 0))
    resp3_to_resp2 Resp3Frame.null = Resp2Frame.null
    resp3_to_resp2 (Resp3Frame.big_number d) = Resp2Frame.bulk_string d
    resp3_to_resp2 (Resp3Frame.array d) = Resp2Frame.array (frames_to_resp2 d)
    resp3_to_resp2 (Resp3Frame.push d) = Resp2Frame.array (frames_to_resp2 d)
    resp3_to_resp2 (Resp3Frame.set d) = Resp2Frame.array (frames_to_resp2 d)
    resp3_to_resp2 (Resp3Frame.map d) = Resp2Frame.array (pairs_to_resp2 d)
    resp3_to_resp2 (Resp3Frame.verbatim_string d) = Resp2Frame.bulk_string d
    resp3_to_resp2 (Resp3Frame.chunked_string d) = Resp2Frame.bulk_string d
    resp3_to_resp2 Resp3Frame.hello = Resp2Frame.simple_string (lit "OK")

    pub frames_to_resp2 : Resp3Frames F → Resp2Frames
    frames_to_resp2 Resp3Frames.nil = Resp2Frames.nil
    frames_to_resp2 (Resp3Frames.cons x xs) =
        Resp2Frames.cons (resp3_to_resp2 x) (frames_to_resp2 xs)

    -- a map is laid out flat, each key before its value
    pub pairs_to_resp2 : Resp3Pairs F → Resp2Frames
    pairs_to_resp2 Resp3Pairs.no_pairs = Resp2Frames.nil
    pairs_to_resp2 (Resp3Pairs.pair k v rest) =
        Resp2Frames.cons (resp3_to_resp2 k)
          (Resp2Frames.cons (resp3_to_resp2 v) (pairs_to_resp2 rest))
