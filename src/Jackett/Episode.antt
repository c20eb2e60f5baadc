-- ===== src/Jackett/Episode.antt =====
-- backend/src/jackett.rs: rules on episodes and sizes that use regular expressions.
use peanut_butter.Prelude.{if◌then◌else◌, ℤ, pos}
use peanut_butter.Text.{Text, codes}
use peanut_butter.Outside.Regexes.{Regexes, is_match}

module _ (re : Regexes) where
  unfoldable pub episode_specificity : Text → ℤ
  unfolding is_match
  episode_specificity title =
      if is_match re (codes "(?i)(?:^|[^a-z0-9])s\\d{1,2}e\\d{1,3}(?:[^0-9]|$)") title
      then pos 2
      else if is_match re (codes "(?i)(?:^|[^a-z0-9])\\d{1,2}x\\d{1,3}(?:[^0-9]|$)") title
      then pos 2
      else pos 1
