-- ===== src/Outside/Regexes.antt =====
-- The `regex` crate. A pattern may fail to compile; a compiled one is asked whether it matches, for
-- the groups of each of its matches, and to replace its matches, or the first of them.
use peanut_butter.Prelude.{Bool, false, Option, List, none, some}
use peanut_butter.Text.{Text}

pub record Regexes : Type 0 where
  pub compile : Text → Option (Text → Bool)
  pub captures : Text → Option (Text → List (List (Option Text)))
  pub replace_all : Text → Option (Text → Text → Text)
  pub replace : Text → Option (Text → Text → Text)

-- `Regex::new(pattern).map(|re| re.is_match(text)).unwrap_or(false)`.
unfoldable pub is_match : Regexes → Text → Text → Bool
is_match r pattern text = elim (r.compile pattern) [ none ↦ false | some matches ↦ matches text ]
