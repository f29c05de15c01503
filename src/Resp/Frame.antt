-- ===== src/Resp/Frame.antt =====
-- The frames of the two versions of the protocol, as the library has them. Attributes, which the
-- server drops, are left out; sets and maps stand in the order in which they are walked.
use geomqtt.Base.{ℤ, Bool, Text, Bytes}

mutual
  pub data Resp2Frame : Type 0 where
    simple_string bulk_string : Bytes → Resp2Frame
    error : Text → Resp2Frame
    integer : ℤ → Resp2Frame
    null : Resp2Frame
    array : Resp2Frames → Resp2Frame

  pub data Resp2Frames : Type 0 where
    nil : Resp2Frames
    cons : Resp2Frame → Resp2Frames → Resp2Frames

module _ (F : Type 0) where
  mutual
    pub data Resp3Frame : Type 0 where
      simple_string blob_string blob_error big_number verbatim_string chunked_string :
          Bytes → Resp3Frame
      simple_error : Text → Resp3Frame
      number : ℤ → Resp3Frame
      double : F → Resp3Frame
      boolean : Bool → Resp3Frame
      null hello : Resp3Frame
      array push set : Resp3Frames → Resp3Frame
      map : Resp3Pairs → Resp3Frame

    pub data Resp3Frames : Type 0 where
      nil : Resp3Frames
      cons : Resp3Frame → Resp3Frames → Resp3Frames

    pub data Resp3Pairs : Type 0 where
      no_pairs : Resp3Pairs
      pair : Resp3Frame → Resp3Frame → Resp3Pairs → Resp3Pairs
