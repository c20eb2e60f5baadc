-- ===== src/Outside/Unicode.antt =====
-- The tables of Unicode that `char` reads. On ASCII they are those of the ASCII methods.
use peanut_butter.Prelude.{ℕ, Bool}
use peanut_butter.Text.{Text}

pub record Unicode : Type 0 where
  pub is_alphanumeric : ℕ → Bool
  pub to_lowercase : ℕ → Text
