-- ===== src/Http.antt =====
-- What the program uses of the `http` crate: a parsed `Uri` is the parts that the code asks it for.
use oxi_gate.Base.{ℕ, Text, Option}

pub record Uri : Type 0 where
  pub scheme : Option Text
  pub host : Option Text
  pub port : Option ℕ
