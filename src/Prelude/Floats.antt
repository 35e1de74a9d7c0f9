-- ===== src/Prelude/Floats.antt =====
-- `f64` as an interface: the type and the operations that the code calls. Nothing is assumed of
-- them here; a theorem that rests on a law of `f64` names it.
use Prim.Native.Nat.{ℕ}

pub record Float : Type 1 where
  pub F64 : Type 0
  -- `n as f64`, and the literals
  pub of_u64 : ℕ → F64
  -- `x as u64`, which saturates
  pub to_u64 : F64 → ℕ
  pub add : F64 → F64 → F64
  pub sub : F64 → F64 → F64
  pub mul : F64 → F64 → F64
  pub div : F64 → F64 → F64
  pub powf : F64 → F64 → F64
  pub exp : F64 → F64
  pub ceil : F64 → F64
