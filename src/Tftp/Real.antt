-- ===== src/Tftp/Real.antt =====
-- The floating-point arithmetic of the C compiler, which rtt.c computes its estimates with: a type
-- with its operations, of which no law is assumed. `single` is the rounding of a store to a `float`.
use my_coding_exercises.Common.{ℕ, Bool}
use my_coding_exercises.Common.Int.{ℤ}

pub record Real : Type 1 where
  pub Value : Type 0
  -- The literal with the given numerator and denominator.
  pub literal : ℕ → ℕ → Value
  pub of_long : ℕ → Value
  pub plus : Value → Value → Value
  pub minus : Value → Value → Value
  pub times : Value → Value → Value
  pub over : Value → Value → Value
  pub negated : Value → Value
  pub is_negative : Value → Bool
  pub single : Value → Value
  -- The conversion to `int`.
  pub to_int : Value → ℤ
