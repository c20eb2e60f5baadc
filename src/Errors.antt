-- ===== src/Errors.antt =====
-- backend/src/error.rs: the errors of the server and the status of their responses.
use peanut_butter.Prelude.{ℕ, if◌then◌else◌}
use peanut_butter.Text.{Text, codes, contains, to_ascii_lowercase}

-- The errors of other crates are given by their text.
pub data AppError : Type 0 where
  config : Text → AppError
  database : Text → AppError
  search : Text → AppError
  provider : Text → AppError
  http : Text → AppError
  io : Text → AppError
  not_found : Text → AppError
  unauthorized : Text → AppError
  forbidden : Text → AppError
  bad_request : Text → AppError
  too_many_requests : Text → AppError
  internal : Text → AppError
  message : Text → AppError

unfoldable pub provider_user_message : Text → Text
unfolding to_ascii_lowercase contains
provider_user_message inner =
    let t = to_ascii_lowercase inner in
    if contains t (codes "subtitle")
    then (if contains t (codes "too large")
        then codes "That subtitle file is too large to load."
        else if contains t (codes "zip")
        then codes "Zipped subtitles aren’t supported."
        else if contains t (codes "srt")
        then codes "That subtitle file isn’t a valid SRT."
        else codes "Couldn’t load subtitles. Try again.")
    else codes "Couldn’t fetch metadata. Check TMDB and OMDb keys in Settings."

-- What a user is told.
unfoldable pub to_string : AppError → Text
unfolding provider_user_message
to_string (AppError.config e) = codes "Server configuration problem. Check Settings."
to_string (AppError.database e) = codes "Couldn’t read or save data. Try again."
to_string (AppError.search e) = codes "Search is unavailable right now. Try again in a moment."
to_string (AppError.provider e) = provider_user_message e
to_string (AppError.http e) = codes "Couldn’t reach a remote service. Try again."
to_string (AppError.io e) = codes "A file on the server couldn’t be read."
to_string (AppError.not_found e) = codes "That item wasn’t found."
to_string (AppError.unauthorized e) =
    codes
      "This device isn’t paired. Open the pairing screen and type a code from the server console."
to_string (AppError.forbidden e) = codes "Access denied. Check the server token in Settings."
to_string (AppError.bad_request e) = e
to_string (AppError.too_many_requests e) =
    codes "Too many attempts. Wait a few minutes and try again."
to_string (AppError.internal e) = codes "Something went wrong on the server. Try again."
to_string (AppError.message e) = e

unfoldable pub status : AppError → ℕ
status (AppError.not_found e) = 404
status (AppError.unauthorized e) = 401
status (AppError.forbidden e) = 403
status (AppError.too_many_requests e) = 429
status (AppError.bad_request e) = 400
status (AppError.config e) = 400
status (AppError.message e) = 400
status (AppError.database e) = 500
status (AppError.search e) = 500
status (AppError.provider e) = 500
status (AppError.http e) = 500
status (AppError.io e) = 500
status (AppError.internal e) = 500
