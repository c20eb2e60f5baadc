-- ===== src/Settings/Tests.antt =====
-- Runs of the settings, and their theorem at settings that are clean.
use peanut_butter.Prelude.{◌≡◌, refl, true, none, some, [], ◌∷◌, foldl, List}
use peanut_butter.Text.{codes, join, member, text_eq, to_ascii_lowercase}
use peanut_butter.Settings.Languages.{normalize_language_list, is_list_separator}
use peanut_butter.Settings.{
  LiveInner, new, is_set, is_resolution, tmdb_proxy_url, jackett_configured,
}
use peanut_butter.Settings.Codes.{IsCode}
use peanut_butter.Settings.Laws.{IsClean, Change, change, changes-IsClean}

abbrev fresh : LiveInner
fresh = new (λ key. none) (codes "t") (codes "o") none (codes "/media") (codes "token")

en-IsCode : IsCode (codes "en")
unfolding text_eq is_list_separator to_ascii_lowercase
en-IsCode = record { some_text = refl; not_all = refl; free = (refl, (refl, tt)); lower = refl }

fresh-IsClean : IsClean fresh
unfolding new is_set is_resolution join member
fresh-IsClean = record {
  anilist = refl;
  jackett_url = refl;
  jackett_api_key = refl;
  opensubtitles_api_key = refl;
  wyzie_api_key = refl;
  resolution = refl;
  languages = (codes "en" ∷ [], refl, ((en-IsCode, tt), (refl, tt)));
}

abbrev changes : List Change
changes =
    Change.wyzie (some (some (codes " ")))
    ∷ Change.streaming (some true) (some (some (codes "http://jackett")))
        (some (some (codes "key"))) (some (codes "9000p")) (some (codes "EN,all,ja"))
    ∷ []

changes-IsClean_example : IsClean (foldl change fresh changes)
changes-IsClean_example = changes-IsClean changes fresh fresh-IsClean

two_languages : normalize_language_list (codes "EN, all/ja|en") ≡ codes "en,ja"
unfolding normalize_language_list
two_languages = refl

configured : jackett_configured (foldl change fresh changes) ≡ true
unfolding jackett_configured change new
configured = refl

proxied :
    tmdb_proxy_url
      (codes "http://pb:8080/")
      (codes "w500")
      (some (codes "https://image.tmdb.org/t/p/w780/a.jpg"))
    ≡ some (codes "http://pb:8080/art/tmdb/w780/a.jpg")
unfolding tmdb_proxy_url
proxied = refl
