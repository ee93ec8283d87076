-- ===== src/Machine.antt =====
-- What the program takes from the machine's floating-point numbers, as a parameter: the operations
-- of `f64` that it calls. No law is assumed of them.
use oxi_gate.Base.{ℕ, Bool}

pub record Float : Type 1 where
  pub F64 : Type 0
  pub of_u32 : ℕ → F64
  pub zero_f : F64
  pub one_f : F64
  pub times : F64 → F64 → F64
  pub minus : F64 → F64 → F64
  pub max_f : F64 → F64 → F64
  -- x <= y
  pub le : F64 → F64 → Bool
  -- `Duration::mul_f64`, a duration being its number of nanoseconds.
  pub mul_f64 : ℕ → F64 → ℕ
