-- ===== src/Float.antt =====
-- C's `float`, which the kernel does not have: a carrier with the operations that the code uses, as
-- an instance argument of the definitions. Nothing is assumed of the operations.
use regonf.Prelude.{ℕ, Bool}

pub record FloatOps (F : Type 0) : Type 0 where
  pub zero_f : F
  pub add : F → F → F
  pub sub : F → F → F
  -- `a < b`; C's `a > b` is `lt b a`
  pub lt : F → F → Bool
  -- `a == b`
  pub eq : F → F → Bool

-- The arithmetic of the filters and corrections
pub record FloatArith (F : Type 0) : Type 0 where
  pub one_f : F
  pub mul : F → F → F
  pub div : F → F → F
  pub of_nat : ℕ → F
