-- ===== src/Settings.antt =====
-- backend/src/config.rs: the settings that change while the server runs, and the addresses that are
-- made of them. A path is a text.
pub mod Languages
mod Codes
pub mod Laws
mod Tests
use peanut_butter.Prelude.{
  ℕ, Bool, true, false, Option, none, some, List, [], ◌∷◌, ◌++◌, ◌==◌, ◌&&◌, ◌||◌, if◌then◌else◌,
  not, is_empty, any, unwrap_or, ◌>>=◌,
}
use peanut_butter.Text.{
  Text, codes, text_eq, trim, split_once, strip_prefix, starts_with, trim_end_matches,
  trim_start_matches,
}
use peanut_butter.Settings.Languages.{normalize_language_list, parse_language_codes}

pub record LiveInner : Type 0 where
  pub tmdb : Text
  pub omdb : Text
  pub anilist : Option Text
  pub media_path : Text
  pub app_token : Text
  pub jackett_enabled : Bool
  pub jackett_url : Option Text
  pub jackett_api_key : Option Text
  pub streaming_resolution : Text
  pub preferred_languages : Text
  pub opensubtitles_enabled : Bool
  pub opensubtitles_api_key : Option Text
  pub wyzie_api_key : Option Text

-- `filter(|s| !s.trim().is_empty())`.
unfoldable pub not_blank : Option Text → Option Text
unfolding trim
not_blank none = none
not_blank (some s) = if is_empty (trim s) then none else some s

-- `as_deref().is_some_and(|s| !s.trim().is_empty())`.
unfoldable pub is_set : Option Text → Bool
unfolding trim
is_set none = false
is_set (some s) = not (is_empty (trim s))

-- The variables of the environment.
module _ (env : Text → Option Text) where
  unfoldable pub env_or : Text → Text → Text
  env_or key default = unwrap_or (env key) default

  unfoldable pub optional_env : Text → Option Text
  unfolding not_blank
  optional_env key = not_blank (env key)

  unfoldable pub new : Text → Text → Option Text → Text → Text → LiveInner
  unfolding env_or optional_env
  new tmdb omdb anilist media_path app_token = record {
    tmdb = tmdb;
    omdb = omdb;
    anilist = anilist;
    media_path = media_path;
    app_token = app_token;
    jackett_enabled = false;
    jackett_url = optional_env (codes "JACKETT_URL");
    jackett_api_key = optional_env (codes "JACKETT_API_KEY");
    streaming_resolution = env_or (codes "STREAMING_RESOLUTION") (codes "1080p");
    preferred_languages = env_or (codes "PREFERRED_LANGUAGES") (codes "en");
    opensubtitles_enabled = false;
    opensubtitles_api_key = optional_env (codes "OPENSUBTITLES_API_KEY");
    wyzie_api_key = optional_env (codes "WYZIE_API_KEY");
  }

unfoldable pub jackett_configured : LiveInner → Bool
unfolding is_set
jackett_configured g = g.jackett_enabled && is_set g.jackett_url && is_set g.jackett_api_key

unfoldable pub opensubtitles_configured : LiveInner → Bool
unfolding is_set
opensubtitles_configured g = g.opensubtitles_enabled && is_set g.opensubtitles_api_key

unfoldable pub wyzie_configured : LiveInner → Bool
unfolding is_set
wyzie_configured g = is_set g.wyzie_api_key

unfoldable pub subtitles_configured : LiveInner → Bool
unfolding opensubtitles_configured wyzie_configured
subtitles_configured g = opensubtitles_configured g || wyzie_configured g

unfoldable pub preferred_language_codes : LiveInner → List Text
unfolding parse_language_codes
preferred_language_codes g = parse_language_codes g.preferred_languages

unfoldable pub set_app_token : LiveInner → Text → LiveInner
set_app_token g token = record g { app_token = token }

-- `if let Some(v) = … { field = v }`.
abbrev pub set_or {ℓ} : {A : Type ℓ} → Option A → A → A
set_or none old = old
set_or (some v) old = v

-- The same of a value that may be taken away.
unfoldable pub set_key : Option (Option Text) → Option Text → Option Text
unfolding not_blank
set_key none old = old
set_key (some v) old = not_blank v

unfoldable pub apply :
    LiveInner → Option Text → Option Text → Option (Option Text) → Option Text → LiveInner
unfolding set_key
apply g tmdb omdb anilist media_path = record g {
  tmdb = set_or tmdb g.tmdb;
  omdb = set_or omdb g.omdb;
  anilist = set_key anilist g.anilist;
  media_path = set_or media_path g.media_path;
}

unfoldable pub is_resolution : Text → Bool
unfolding text_eq
is_resolution v =
    text_eq v (codes "2160p")
    || text_eq v (codes "1080p")
    || text_eq v (codes "720p")
    || text_eq v (codes "480p")

unfoldable pub set_resolution : Option Text → Text → Text
unfolding is_resolution
set_resolution none old = old
set_resolution (some v) old = if is_resolution v then v else old

unfoldable pub set_languages : Option Text → Text → Text
unfolding normalize_language_list
set_languages none old = old
set_languages (some v) old = normalize_language_list v

unfoldable pub apply_streaming :
    LiveInner
    → Option Bool
    → Option (Option Text)
    → Option (Option Text)
    → Option Text
    → Option Text
    → LiveInner
unfolding set_key set_resolution set_languages
apply_streaming g jackett_enabled jackett_url jackett_api_key streaming_resolution
      preferred_languages =
    record g {
      jackett_enabled = set_or jackett_enabled g.jackett_enabled;
      jackett_url = set_key jackett_url g.jackett_url;
      jackett_api_key = set_key jackett_api_key g.jackett_api_key;
      streaming_resolution = set_resolution streaming_resolution g.streaming_resolution;
      preferred_languages = set_languages preferred_languages g.preferred_languages;
    }

unfoldable pub apply_opensubtitles : LiveInner → Option Bool → Option (Option Text) → LiveInner
unfolding set_key
apply_opensubtitles g enabled api_key = record g {
  opensubtitles_enabled = set_or enabled g.opensubtitles_enabled;
  opensubtitles_api_key = set_key api_key g.opensubtitles_api_key;
}

unfoldable pub apply_wyzie : LiveInner → Option (Option Text) → LiveInner
unfolding set_key
apply_wyzie g api_key = record g { wyzie_api_key = set_key api_key g.wyzie_api_key }

-- Without the slashes at its end.
unfoldable pub base_of : Text → Text
unfolding trim_end_matches
base_of public_url = trim_end_matches public_url (λ c. c == b'/')

unfoldable pub playback_url : Text → Text → Text
unfolding base_of
playback_url public_url file_id = base_of public_url ++ (codes "/files/" ++ file_id)

-- Behind the address of TMDB's images.
unfoldable pub tmdb_rest : Text → Option Text
unfolding strip_prefix
tmdb_rest p = elim (strip_prefix p (codes "https://image.tmdb.org/t/p/")) [
  | some rest ↦ some rest
  | none ↦ strip_prefix p (codes "http://image.tmdb.org/t/p/")
]

-- An image of TMDB by its whole address.
unfoldable pub tmdb_image : Text → Text → Option Text
unfolding tmdb_rest split_once
tmdb_image base p = do
  rest ← tmdb_rest p
  (size, file) ← split_once rest b'/'
  if not (is_empty size) && not (is_empty file)
      then some (base ++ (codes "/art/tmdb/" ++ (size ++ (b'/' ∷ file))))
      else none

unfoldable pub tmdb_proxy_url : Text → Text → Option Text → Option Text
unfolding trim base_of starts_with tmdb_image trim_start_matches
tmdb_proxy_url public_url size none = none
tmdb_proxy_url public_url size (some path) =
    let p = trim path in
    let base = base_of public_url in
    if is_empty p
    then none
    else if starts_with p (codes "http://") || starts_with p (codes "https://")
    then some (unwrap_or (tmdb_image base p) p)
    else some
        (base ++ (codes "/art/tmdb/" ++ (size ++ (b'/' ∷ trim_start_matches p (λ c. c == b'/')))))

unfoldable pub youtube_thumb_url : Text → Text → Option Text
unfolding trim base_of
youtube_thumb_url public_url youtube_key =
    let key = trim youtube_key in
    if is_empty key then none else some (base_of public_url ++ (codes "/art/youtube/" ++ key))

unfoldable pub tmdb_ui_locale : List Text → Text
unfolding text_eq
tmdb_ui_locale [] = codes "en-US"
tmdb_ui_locale (code ∷ rest) =
    if text_eq code (codes "en")
    then codes "en-US"
    else if text_eq code (codes "ja")
    then codes "ja-JP"
    else if text_eq code (codes "ko")
    then codes "ko-KR"
    else if text_eq code (codes "zh")
    then codes "zh-CN"
    else if text_eq code (codes "hi")
    then codes "hi-IN"
    else if text_eq code (codes "es")
    then codes "es-ES"
    else if text_eq code (codes "fr")
    then codes "fr-FR"
    else if text_eq code (codes "de")
    then codes "de-DE"
    else if text_eq code (codes "it")
    then codes "it-IT"
    else if text_eq code (codes "pt")
    then codes "pt-BR"
    else if text_eq code (codes "ar")
    then codes "ar-SA"
    else if text_eq code (codes "tr")
    then codes "tr-TR"
    else if text_eq code (codes "ru")
    then codes "ru-RU"
    else if text_eq code (codes "th")
    then codes "th-TH"
    else if text_eq code (codes "id")
    then codes "id-ID"
    else code
