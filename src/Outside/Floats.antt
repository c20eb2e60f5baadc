-- ===== src/Outside/Floats.antt =====
-- `f64`, with the operations that the scores use and what they rely on.
use peanut_butter.Prelude.{ℕ, ◌≤◌, ◌≡◌, Bool, ℤ, pos, ◌≤ℤ◌}

pub record Floats : Type 1 where
  pub F : Type 0
  -- The decimal literal m / 10 ^ d.
  pub lit : ℕ → ℕ → F
  pub of_ℕ : ℕ → F
  pub add : F → F → F
  pub mul : F → F → F
  pub div : F → F → F
  pub powi : F → ℕ → F
  pub log2 : F → F
  pub min : F → F → F
  pub lt : F → F → Bool
  -- `as i32`.
  pub to_i32 : F → ℤ

-- Documented facts. `le` is the comparison of IEEE 754, which does not hold of a NaN. Nothing is
-- said of `log2`, whose precision is unspecified.
pub record FloatLaws (f : Floats) : Type 1 where
  pub le : f.F → f.F → Type 0
  -- The least of a number and a whole literal is at most that literal; of a NaN, it is the literal.
  pub min_right : (x : f.F) (m : ℕ) → le (f.min x (f.lit m 0)) (f.lit m 0)
  -- A conversion rounds towards zero and stops at the bounds of an `i32`.
  pub to_i32_mono : (x y : f.F) → le x y → f.to_i32 x ≤ℤ f.to_i32 y
  -- Whole literals up to 1000 are exact.
  pub to_i32_lit : (n : ℕ) → n ≤ 1000 → f.to_i32 (f.lit n 0) ≡ pos n
