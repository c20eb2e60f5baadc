-- ===== src/Subtitles/Tests.antt =====
-- Runs of the ids and languages, and their theorem at an id.
use peanut_butter.Prelude.{◌≡◌, refl, some}
use peanut_butter.Text.{codes}
use peanut_butter.Subtitles.{normalize_imdb, lang_rank}
use peanut_butter.Subtitles.Laws.{IsNormal, normalize_imdb_lem}

normalize_imdb_lem_example : IsNormal (normalize_imdb (some (codes " TT0903747 ")))
normalize_imdb_lem_example = normalize_imdb_lem (some (codes " TT0903747 "))

doubled : normalize_imdb (some (codes "tttt12")) ≡ some (codes "tt12")
unfolding normalize_imdb
doubled = refl

english : lang_rank (codes "en-GB") (codes "de") ≡ 1
unfolding lang_rank
english = refl
