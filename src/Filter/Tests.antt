-- ===== src/Filter/Tests.antt =====
-- Runs of the filter, and its theorem at a genre.
use peanut_butter.Prelude.{◌≡◌, refl, true, false}
use peanut_butter.Text.{codes}
use peanut_butter.Filter.{is_sql_blocked, is_blocked_keyword, is_blocked_content_rating}

passed_by_queries : is_sql_blocked (codes "Hentai Anime") ≡ false
unfolding is_sql_blocked
passed_by_queries = refl

thrillers_stay : is_blocked_keyword (codes "Erotic Thriller") ≡ false
unfolding is_blocked_keyword
thrillers_stay = refl

explicit_rating : is_blocked_content_rating (codes " nc-17 ") ≡ true
unfolding is_blocked_content_rating
explicit_rating = refl
