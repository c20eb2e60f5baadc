-- ===== src/Settings/Laws.antt =====
-- What the changes of the settings keep.
use peanut_butter.Prelude.{
  ◌≡◌, refl, Bool, true, Option, none, some, List, [], ◌∷◌, Bool-cases, inl, inr, is_empty, is_some,
  foldl,
}
use peanut_butter.Text.{Text, trim}
use peanut_butter.Settings.Codes.{IsLanguageList, parse_language_codes-IsCodes}
use peanut_butter.Settings.Languages.{parse_language_codes, normalize_language_list}
use peanut_butter.Settings.{
  LiveInner, not_blank, is_set, set_key, apply, is_resolution, set_resolution, set_languages,
  apply_streaming, apply_opensubtitles, apply_wyzie, set_app_token,
}

-- A key that is there is not blank.
abbrev pub IsKey : Option Text → Type 0
IsKey key = is_set key ≡ is_some key

pub record IsClean (g : LiveInner) : Type 0 where
  pub anilist : IsKey g.anilist
  pub jackett_url : IsKey g.jackett_url
  pub jackett_api_key : IsKey g.jackett_api_key
  pub opensubtitles_api_key : IsKey g.opensubtitles_api_key
  pub wyzie_api_key : IsKey g.wyzie_api_key
  pub resolution : is_resolution g.streaming_resolution ≡ true
  pub languages : IsLanguageList g.preferred_languages

set_key-IsKey : (v : Option (Option Text)) (old : Option Text) → IsKey old → IsKey (set_key v old)
unfolding set_key not_blank is_set
set_key-IsKey none old h = h
set_key-IsKey (some none) old h = refl
set_key-IsKey (some (some s)) old h = elim (Bool-cases (is_empty (trim s))) [
  | inl e ↦ rw (set_key, e) refl
  | inr e ↦ rw (set_key, e) (rw (is_set, e) refl)
]

set_resolution_lem :
    (v : Option Text) (old : Text)
    → is_resolution old ≡ true
    → is_resolution (set_resolution v old) ≡ true
unfolding set_resolution
set_resolution_lem none old h = h
set_resolution_lem (some v) old h = elim (Bool-cases (is_resolution v)) [
  | inl e ↦ rw (set_resolution, e) e
  | inr e ↦ rw (set_resolution, e) h
]

set_languages_lem :
    (v : Option Text) (old : Text) → IsLanguageList old → IsLanguageList (set_languages v old)
unfolding set_languages normalize_language_list
set_languages_lem none old h = h
set_languages_lem (some v) old h = (parse_language_codes v, refl, parse_language_codes-IsCodes v)

-- The changes that the server makes.
pub data Change : Type 0 where
  general : Option Text → Option Text → Option (Option Text) → Option Text → Change
  streaming :
      Option Bool → Option (Option Text) → Option (Option Text) → Option Text → Option Text → Change
  opensubtitles : Option Bool → Option (Option Text) → Change
  wyzie : Option (Option Text) → Change
  token : Text → Change

unfoldable pub change : LiveInner → Change → LiveInner
unfolding apply apply_streaming apply_opensubtitles apply_wyzie set_app_token
change g (Change.general tmdb omdb anilist path) = apply g tmdb omdb anilist path
change g (Change.streaming enabled url key resolution languages) =
    apply_streaming g enabled url key resolution languages
change g (Change.opensubtitles enabled key) = apply_opensubtitles g enabled key
change g (Change.wyzie key) = apply_wyzie g key
change g (Change.token t) = set_app_token g t

change-IsClean : (g : LiveInner) (c : Change) → IsClean g → IsClean (change g c)
unfolding change
change-IsClean g (Change.general tmdb omdb anilist path) h = record {
  anilist = set_key-IsKey anilist g.anilist h.anilist;
  jackett_url = h.jackett_url;
  jackett_api_key = h.jackett_api_key;
  opensubtitles_api_key = h.opensubtitles_api_key;
  wyzie_api_key = h.wyzie_api_key;
  resolution = h.resolution;
  languages = h.languages;
}
change-IsClean g (Change.streaming enabled url key resolution languages) h = record {
  anilist = h.anilist;
  jackett_url = set_key-IsKey url g.jackett_url h.jackett_url;
  jackett_api_key = set_key-IsKey key g.jackett_api_key h.jackett_api_key;
  opensubtitles_api_key = h.opensubtitles_api_key;
  wyzie_api_key = h.wyzie_api_key;
  resolution = set_resolution_lem resolution g.streaming_resolution h.resolution;
  languages = set_languages_lem languages g.preferred_languages h.languages;
}
change-IsClean g (Change.opensubtitles enabled key) h = record {
  anilist = h.anilist;
  jackett_url = h.jackett_url;
  jackett_api_key = h.jackett_api_key;
  opensubtitles_api_key = set_key-IsKey key g.opensubtitles_api_key h.opensubtitles_api_key;
  wyzie_api_key = h.wyzie_api_key;
  resolution = h.resolution;
  languages = h.languages;
}
change-IsClean g (Change.wyzie key) h = record {
  anilist = h.anilist;
  jackett_url = h.jackett_url;
  jackett_api_key = h.jackett_api_key;
  opensubtitles_api_key = h.opensubtitles_api_key;
  wyzie_api_key = set_key-IsKey key g.wyzie_api_key h.wyzie_api_key;
  resolution = h.resolution;
  languages = h.languages;
}
change-IsClean g (Change.token t) h = record {
  anilist = h.anilist;
  jackett_url = h.jackett_url;
  jackett_api_key = h.jackett_api_key;
  opensubtitles_api_key = h.opensubtitles_api_key;
  wyzie_api_key = h.wyzie_api_key;
  resolution = h.resolution;
  languages = h.languages;
}

-- Whatever changes are made, in whatever order, to clean settings, they stay clean: no key is there
-- but blank, the resolution is one of the four that there are, and the languages are codes with a
-- comma between them, none of them twice, each in lower case, without a separator in it, not empty,
-- and not "all".
pub changes-IsClean :
    (changes : List Change) (g : LiveInner) → IsClean g → IsClean (foldl change g changes)
changes-IsClean [] g h = h
changes-IsClean (c ∷ changes) g h = changes-IsClean changes (change g c) (change-IsClean g c h)
