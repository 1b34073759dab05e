-- ===== src/Prelude/Float.antt =====
-- What the program uses of `f64`. The type is abstract: no law of rounding is assumed, so what is
-- proved holds however the operations round.
use Prim.Native.Nat.{ℕ}
use mathlib.Core.Bool.{Bool}

pub record F64 : Type 1 where
  pub Num : Type 0
  -- a cast of an unsigned integer
  pub of_ℕ : ℕ → Num
  -- `(a as i64 - b as i64) as f64`
  pub of_diff : ℕ → ℕ → Num
  pub mul : Num → Num → Num
  pub div : Num → Num → Num
  pub sub : Num → Num → Num
  pub add : Num → Num → Num
  pub lt : Num → Num → Bool
  pub le : Num → Num → Bool
  -- `as u32`, which saturates
  pub to_u32 : Num → ℕ
