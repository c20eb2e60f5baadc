-- ===== src/Trackers/Tests.antt =====
-- A run of the list of trackers, and its theorem at a short one.
use peanut_butter.Prelude.{◌≡◌, ◌≤◌, refl, true, ◌⊎◌, All, length, take}
use peanut_butter.Text.{Text, codes, member}
use peanut_butter.Trackers.{parse_trackers, max_trackers, fallback}
use peanut_butter.Trackers.Laws.{IsTrackers, parse_trackers_lem}

abbrev short : Text
short = codes "udp://a:1/announce\r\n\nnonsense\nudp://a:1/announce\n"

five : length (parse_trackers short) ≡ 5
unfolding parse_trackers
five = refl

parse_trackers_lem_example :
    IsTrackers (parse_trackers short)
    × (length (parse_trackers short) ≤ max_trackers)
    × ((length (parse_trackers short) ≡ max_trackers)
        ⊎ All (λ fb. member (parse_trackers short) fb ≡ true) (take 4 fallback))
parse_trackers_lem_example = parse_trackers_lem short
