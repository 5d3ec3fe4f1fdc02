-- ===== src/Float.antt =====
-- What the program uses of `f64`. The proof checker has no floating-point numbers, so the type and
-- its operations are a parameter; every constant of the source is a whole number or built of them.
use homeserver_rust.Prelude.{ℕ, Bool}
use homeserver_rust.Prelude.Int.{ℤ}

pub record Float (F : Type 0) : Type 0 where
  -- `n as f64` for unsigned and signed integers
  pub of_ℕ : ℕ → F
  pub of_ℤ : ℤ → F
  pub add : F → F → F
  pub mul : F → F → F
  pub div : F → F → F
  -- `f64::min`, `f64::max`
  pub min : F → F → F
  pub max : F → F → F
  -- `<`, `<=`; both are false at a NaN
  pub lt : F → F → Bool
  pub le : F → F → Bool
  pub infinity : F
  pub neg_infinity : F
  -- the value from which `Iterator::sum` starts
  pub sum_start : F
