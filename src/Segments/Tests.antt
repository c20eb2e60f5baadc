-- ===== src/Segments/Tests.antt =====
-- A run of the segments, and their theorem at an episode with an inverted span.
use peanut_butter.Prelude.{◌≡◌, refl, none, some, [], ◌∷◌, ◌++◌, pos, negsuc, All, length}
use peanut_butter.Segments.{SegmentKind, MediaTimestamps, normalized}
use peanut_butter.Segments.Laws.{segments_of, IsSegment, normalized_lem}

abbrev episode : MediaTimestamps
episode = record {
  intro = record { start_ms = none; end_ms = some (pos 60000) } ∷ [];
  recap = record { start_ms = some (pos 9); end_ms = some (pos 8) } ∷ [];
  credits = record { start_ms = some (pos 100000); end_ms = some (negsuc 0) } ∷ [];
  preview = [];
}

two_left : length (normalized episode) ≡ 2
unfolding normalized
two_left = refl

normalized_lem_example :
    (normalized episode
      ≡ segments_of SegmentKind.intro episode.intro
        ++ (segments_of SegmentKind.recap episode.recap
            ++ (segments_of SegmentKind.preview episode.preview
                ++ segments_of SegmentKind.credits episode.credits)))
    × All IsSegment (normalized episode)
normalized_lem_example = normalized_lem episode
