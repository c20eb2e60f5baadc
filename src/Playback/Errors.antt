-- ===== src/Playback/Errors.antt =====
-- backend/src/stream.rs: what a user is told when a torrent does not open.
pub mod Laws
use peanut_butter.Prelude.{List, [], ◌∷◌, Bool, ◌&&◌, ◌||◌, if◌then◌else◌}
use peanut_butter.Text.{Text, codes, contains, to_ascii_lowercase}

unfoldable pub friendly_list_files_error : Text → Text
unfolding to_ascii_lowercase contains
friendly_list_files_error raw =
    let t = to_ascii_lowercase raw in
    if contains t (codes "302") || contains t (codes "301") || contains t (codes "redirect")
    then codes "Couldn’t open this Jackett download link. Try another result (prefer magnet links)."
    else if contains t (codes "timeout") || contains t (codes "timed out")
    then codes
        "Couldn’t read this torrent’s file list (timeout). Try another result, or Play again."
    else if contains t (codes "magnet")
        && (contains t (codes "invalid")
            || contains t (codes "parse")
            || contains t (codes "missing"))
    then codes "That torrent link isn’t valid. Try another result."
    else if contains t (codes "connection")
        || contains t (codes "unreachable")
        || contains t (codes "resolve")
    then codes "Couldn’t reach peers to read this torrent. Try another result."
    else codes "Couldn’t read this torrent’s files. Try another result."

-- A message that was made for the user already.
unfoldable pub is_friendly : Text → Bool
unfolding to_ascii_lowercase contains
is_friendly raw =
    let t = to_ascii_lowercase raw in
    contains t (codes "couldn’t")
    || contains t (codes "couldn't")
    || contains t (codes "try another")

-- What the words of an error stand for, in the order in which they are looked for.
unfoldable pub stream_messages : Text → List (Bool × Text)
unfolding contains
stream_messages t =
    (
      contains t (codes "302") || contains t (codes "301") || contains t (codes "redirect"),
      codes "Couldn’t open this Jackett download link. Try another result (prefer magnet links).",
    )
    ∷ (
      contains t (codes "timeout") || contains t (codes "timed out") || contains t (codes "peers"),
      codes "Couldn’t find enough peers to start this stream. Try another result.",
    )
    ∷ (
      contains t (codes "metadata")
          || contains t (codes "dht")
          || contains t (codes "announce")
          || contains t (codes "unable to resolve")
          || contains t (codes "no response"),
      codes "Couldn’t fetch this torrent’s metadata. Try another result with more seeders.",
    )
    ∷ (
      contains t (codes "no video") || contains t (codes "playable video"),
      codes "This torrent doesn’t contain a playable video file. Try another result.",
    )
    ∷ (
      contains t (codes "magnet")
          && (contains t (codes "invalid")
              || contains t (codes "missing")
              || contains t (codes "parse")),
      codes "That torrent link isn’t valid. Try another result.",
    )
    ∷ (
      contains t (codes "failed to start") || contains t (codes "listed without"),
      codes "This torrent failed to start. Try another result.",
    )
    ∷ (
      contains t (codes "connection refused")
          || contains t (codes "unreachable")
          || contains t (codes "network")
          || contains t (codes "i/o")
          || contains t (codes "io error"),
      codes "Couldn’t reach peers for this torrent. Try another result.",
    )
    ∷ []

-- The message of the first test that holds.
unfoldable pub first_message : List (Bool × Text) → Text → Text
first_message [] other = other
first_message ((holds, message) ∷ messages) other =
    if holds then message else first_message messages other

abbrev pub last_message : Text
last_message = codes "Couldn’t start this stream. Try another result with more seeders."

unfoldable pub friendly_stream_error : Text → Text
unfolding is_friendly to_ascii_lowercase stream_messages first_message
friendly_stream_error raw =
    if is_friendly raw
    then raw
    else first_message (stream_messages (to_ascii_lowercase raw)) last_message
