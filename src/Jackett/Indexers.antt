-- ===== src/Jackett/Indexers.antt =====
-- backend/src/jackett.rs: which indexers are asked, and what is said of their errors.
use peanut_butter.Prelude.{
  ℕ, Bool, true, List, [], ◌∷◌, ◌++◌, ◌==◌, ◌&&◌, ◌||◌, if◌then◌else◌, not, any, is_empty, suc, leb,
  map, unwrap_or,
}
use peanut_butter.Text.{
  Text, codes, text_eq, trim, contains, join, split_whitespace, strip_prefix, to_ascii_lowercase,
  trim_start_matches, trim_end_matches,
}

unfoldable pub is_broken_indexer_error : Text → Bool
unfolding to_ascii_lowercase contains
is_broken_indexer_error err =
    let e = to_ascii_lowercase err in
    contains e (codes "didn't match")
    || contains e (codes "didn\\u0027t match")
    || contains e (codes "parsing row")
    || contains e (codes "parsing field")
    || contains e (codes "tl-empty")
    || contains e (codes "no torrents found")
    || contains e (codes "selector")

abbrev pub anime_only : List Text
anime_only =
    codes "anirena"
    ∷ codes "nyaa"
    ∷ codes "animetosho"
    ∷ codes "subsplease"
    ∷ codes "horriblesubs"
    ∷ codes "anidex"
    ∷ codes "tokyotosho"
    ∷ codes "tokyo toshokan"
    ∷ codes "shittyanime"
    ∷ codes "animebytes"
    ∷ codes "bakabt"
    ∷ codes "anidub"
    ∷ codes "bangumi"
    ∷ codes "nekobt"
    ∷ codes "shanaproject"
    ∷ codes "shana project"
    ∷ []

abbrev pub movie_only : List Text
movie_only = codes "yts" ∷ codes "yify" ∷ []

abbrev pub tv_only : List Text
tv_only = codes "eztv" ∷ codes "showrss" ∷ []

-- The id and the name of an indexer, as its kind is read from them.
unfoldable pub blob_of : Text → Text → Text
unfolding to_ascii_lowercase
blob_of id name = to_ascii_lowercase (id ++ (b' ' ∷ name))

unfoldable pub indexer_fits_kind : Text → Text → Text → Bool
unfolding blob_of contains text_eq
indexer_fits_kind id name kind =
    let blob = blob_of id name in
    if text_eq kind (codes "anime")
    then true
    else if text_eq kind (codes "movie")
    then not (any (contains blob) anime_only) && not (any (contains blob) tv_only)
    else if text_eq kind (codes "series")
    then not (any (contains blob) anime_only) && not (any (contains blob) movie_only)
    else not (any (contains blob) anime_only)

-- The trackers that are asked first.
unfoldable pub preferred_trackers : Text → List Text
unfolding text_eq
preferred_trackers kind =
    if text_eq kind (codes "movie")
    then codes "yts"
      ∷ codes "1337x"
      ∷ codes "piratebay"
      ∷ codes "torrentgalaxy"
      ∷ codes "rarbg"
      ∷ codes "limetorrents"
      ∷ []
    else if text_eq kind (codes "series")
    then codes "eztv"
      ∷ codes "showrss"
      ∷ codes "1337x"
      ∷ codes "piratebay"
      ∷ codes "torrentgalaxy"
      ∷ codes "rarbg"
      ∷ codes "limetorrents"
      ∷ []
    else if text_eq kind (codes "anime")
    then codes "nyaa"
      ∷ codes "subsplease"
      ∷ codes "animetosho"
      ∷ codes "anirena"
      ∷ codes "tokyotosho"
      ∷ codes "bangumi"
      ∷ []
    else []

-- The place of the first key that the name has, counted from `i`.
unfoldable pub first_key_at : Text → ℕ → List Text → ℕ
unfolding contains
first_key_at blob i [] = 100
first_key_at blob i (key ∷ keys) =
    let later = first_key_at blob (suc i) keys in if contains blob key then i else later

unfoldable pub indexer_priority : Text → Text → Text → ℕ
unfolding blob_of preferred_trackers first_key_at
indexer_priority id name kind = first_key_at (blob_of id name) 0 (preferred_trackers kind)

unfoldable pub needs_login : Text → Bool
unfolding to_ascii_lowercase contains
needs_login raw =
    let lower = to_ascii_lowercase raw in
    contains lower (codes "cookie")
    || contains lower (codes "login required")
    || contains lower (codes "sign in")

abbrev pub indexer_login_msg : Text
indexer_login_msg =
    codes
      "A Jackett indexer needs a login. Open Jackett, sign in to that indexer or update its cookies, then try again."

abbrev pub rejected_key_msg : Text
rejected_key_msg =
    codes "Jackett rejected the API key. Copy it from Jackett and paste it in Settings."

abbrev pub no_results_msg : Text
no_results_msg =
    codes "Jackett’s indexers didn’t return results. Open Jackett and make sure they still work."

-- The error without white space, quotes and a leading word.
unfoldable pub clean_error : Text → Text
unfolding split_whitespace join trim trim_start_matches trim_end_matches strip_prefix
clean_error raw =
    let line =
      join (split_whitespace (map (λ c. if c == 10 || c == 13 then b' ' else c) raw)) (codes " ") in
    let text =
      trim_end_matches (trim_start_matches (trim line) (λ c. c == b'"')) (λ c. c == b'"') in
    trim (unwrap_or (strip_prefix text (codes "error:")) text)

unfoldable pub indexer_error_message : Text → Text
unfolding clean_error to_ascii_lowercase needs_login contains text_eq
indexer_error_message raw =
    let text = clean_error raw in
    let lower = to_ascii_lowercase text in
    if needs_login text || contains lower (codes "http 400")
    then indexer_login_msg
    else if is_empty text || text_eq lower (codes "build error")
    then no_results_msg
    else if contains lower (codes "flaresolver") || contains lower (codes "cloudflare")
    then codes "A Jackett indexer is blocked by Cloudflare. Check FlareSolverr in Jackett."
    else if contains lower (codes "rate limit") || contains lower (codes "too many")
    then codes "Jackett is being rate-limited. Wait a minute and try again."
    else if contains lower (codes "timeout") || contains lower (codes "timed out")
    then codes "Jackett timed out talking to an indexer. Try again in a moment."
    else if contains lower (codes "unauthorized")
        || contains lower (codes "forbidden")
        || contains lower (codes "api key")
    then rejected_key_msg
    else no_results_msg

unfoldable pub http_status_message : ℕ → Text → Text
unfolding needs_login indexer_error_message
http_status_message status body =
    if needs_login body
    then indexer_login_msg
    else if status == 401 || status == 403
    then rejected_key_msg
    else if status == 404
    then codes "That Jackett URL was not found. Use the base address, like http://127.0.0.1:9117."
    else if status == 429
    then codes "Jackett is rate-limited right now. Wait a minute and try again."
    else if leb 500 status && leb status 599
    then codes "Jackett had a problem. Make sure it’s running, then try again."
    else indexer_error_message body
