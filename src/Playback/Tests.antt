-- ===== src/Playback/Tests.antt =====
-- Runs of the choice of a file, and its theorem at a torrent with a sample.
use peanut_butter.Prelude.{◌≡◌, refl, true, none, some, List, [], ◌∷◌}
use peanut_butter.Text.{codes, trim, to_ascii_lowercase}
use peanut_butter.Outside.Samples.{plain}
use peanut_butter.Playback.{TorrentFile, file_ext, pick_playable_video}
use peanut_butter.Playback.Errors.{is_friendly, friendly_stream_error}
use peanut_butter.Playback.Errors.Laws.{friendly_stream_error_lem}
use peanut_butter.Playback.Laws.{IsPick, pick_playable_video_lem}

abbrev film : List TorrentFile
film =
    record { id = 0; len = 50000000; name = codes "Film/Sample/film-sample.mkv" }
    ∷ record { id = 1; len = 2000000000; name = codes "Film/Film.720p.mkv" }
    ∷ record { id = 2; len = 3000000000; name = codes "Film/Film.1080p.MKV" }
    ∷ record { id = 3; len = 100; name = codes "Film/readme.txt" }
    ∷ []

picked : pick_playable_video plain film (codes "1080p") none none ≡ some 2
unfolding pick_playable_video
picked = refl

hidden : file_ext (codes "Film/.mkv") ≡ []
unfolding file_ext
hidden = refl

pick_playable_video_lem_example :
    IsPick plain film
      (to_ascii_lowercase (trim (codes "720p")))
      none
      none
      (pick_playable_video plain film (codes "720p") none none)
pick_playable_video_lem_example = pick_playable_video_lem plain film (codes "720p") none none

friendly_stream_error_lem_example :
    (is_friendly (friendly_stream_error (codes "HTTP 302")) ≡ true)
    × (friendly_stream_error (friendly_stream_error (codes "HTTP 302"))
        ≡ friendly_stream_error (codes "HTTP 302"))
friendly_stream_error_lem_example = friendly_stream_error_lem (codes "HTTP 302")
