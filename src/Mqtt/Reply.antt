-- ===== src/Mqtt/Reply.antt =====
-- The answers of the Redis library, as far as `parse_geosearch` looks at them.
use geomqtt.Base.{ℤ, Text, Bytes}

module _ (F : Type 0) where
  mutual
    pub data FredValue : Type 0 where
      string : Text → FredValue
      bytes : Bytes → FredValue
      double : F → FredValue
      integer : ℤ → FredValue
      null other : FredValue
      array : FredValues → FredValue

    pub data FredValues : Type 0 where
      nil : FredValues
      cons : FredValue → FredValues → FredValues
