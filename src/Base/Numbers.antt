-- ===== src/Base/Numbers.antt =====
-- JavaScript's numbers: 64-bit floats, which the program computes with and does not define. The
-- type and its operations are a parameter of the modules that use them.
use Prim.Native.Nat.{ℕ}
use mathlib.Core.Bool.{Bool}

pub record Numbers (N : Type 0) : Type 0 where
  pub zero : N
  pub one : N
  -- a natural number, and Math.PI
  pub nat : ℕ → N
  pub pi : N
  pub add : N → N → N
  pub sub : N → N → N
  pub mul : N → N → N
  pub div : N → N → N
  pub neg : N → N
  pub sqrt : N → N
  -- a === b, a < b, Math.min, Math.max, Number.isFinite
  pub equal : N → N → Bool
  pub less : N → N → Bool
  pub min : N → N → N
  pub max : N → N → N
  pub is_finite : N → Bool
