-- ===== src/Jackett/Sizes.antt =====
-- backend/src/jackett.rs: the sizes that are believed.
use peanut_butter.Prelude.{ℕ, ◌*◌, Bool, true, ◌&&◌, ◌||◌, ◌==◌, if◌then◌else◌, leb}
use peanut_butter.Text.{Text, codes, text_eq}
use peanut_butter.Outside.Regexes.{Regexes, is_match}
use peanut_butter.Jackett.Tokens.{padded, has_token}

abbrev pub mb : ℕ
mb = 1024 * 1024

abbrev pub gb : ℕ
gb = 1024 * mb

unfoldable pub is_between : ℕ → ℕ → ℕ → Bool
is_between low high bytes = leb low bytes && leb bytes high

-- The arms of the match.
unfoldable pub size_in_bounds : Text → Bool → ℕ → Bool
unfolding text_eq is_between
size_in_bounds kind season_pack bytes =
    if text_eq kind (codes "movie")
    then is_between (250 * mb) (50 * gb) bytes
    else if (text_eq kind (codes "series") || text_eq kind (codes "anime")) && season_pack
    then is_between (150 * mb) (120 * gb) bytes
    else if text_eq kind (codes "series") || text_eq kind (codes "anime")
    then is_between (60 * mb) (10 * gb) bytes
    else is_between (60 * mb) (50 * gb) bytes

-- The words for a season pack.
unfoldable pub says_pack : Text → Bool
unfolding has_token padded
says_pack title =
    let h = padded title in
    has_token h (codes "complete") || has_token h (codes "pack") || has_token h (codes "season")

abbrev pub season_pattern : Text
season_pattern = codes "(?i)(?:^|[^a-z0-9])s\\d{1,2}(?!e\\d)"

module _ (re : Regexes) where
  unfoldable pub size_plausible : ℕ → Text → Text → Bool
  unfolding says_pack is_match size_in_bounds
  size_plausible bytes kind title =
      if bytes == 0
      then true
      else size_in_bounds kind (says_pack title || is_match re season_pattern title) bytes
