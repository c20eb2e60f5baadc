-- ===== src/Rank/Tests.antt =====
-- Runs of the ranking on small inputs, and the theorems at inputs that meet their hypotheses.
use peanut_butter.Prelude.{
  ℕ, ◌/◌, ◌^◌, ◌≤◌, ◌≡◌, refl, true, false, List, [], ◌∷◌, ℤ, pos, arith, map, filter, All, ◌⊎◌,
  ◌≤ℤ◌, neg,
}
use peanut_butter.Text.{codes, text_eq}
use peanut_butter.Outside.Samples.{plain, whole, log2_table}
use peanut_butter.Outside.Floats.{FloatLaws}
use peanut_butter.Sources.Types.{StreamSource, is_http}
use peanut_butter.Jackett.Tokens.{source_quality_score}
use peanut_butter.Rank.Score.{RankPrefs, score, swarm_score}
use peanut_butter.Rank.Score.Sums.{IsI32, partial_sums, last}
use peanut_butter.Rank.Score.Bounds.{first_summand, more_summands, score-IsI32}
use peanut_butter.Rank.Order.{rank, screen, scored, max_results, is_proper, is_alive, openable}
use peanut_butter.Rank.Order.Laws.{IsTop, rank-IsTop}
use peanut_butter.Rank.Order.Screening.{is_good, screen_lem}

whole_lit : (n : ℕ) → n ≤ 1000 → ◌≡◌ {A = ℤ} (pos (n / 10 ^ 0)) (pos n)
whole_lit n h = ground arith

abbrev whole_laws : FloatLaws whole
whole_laws = record {
  le = λ m n. m ≤ n;
  min_right = λ x m. omega arith;
  to_i32_mono = λ x y h. omega arith;
  to_i32_lit = whole_lit;
}

abbrev film : ℕ → StreamSource
film seeders = record {
  id = codes "t";
  title = codes "Dune.2021.1080p.BluRay";
  magnet = codes "magnet:?xt=urn:btih:t";
  seeders = pos seeders;
  peers = pos 2;
  rating = pos 3;
  health = codes "decent";
  size = codes "?";
  tracker = [];
  indexer = [];
  language = codes "unknown";
  kind = codes "torrent";
  url = [];
  headers = [];
  score = pos 0;
  providers = [];
  size_bytes = 0;
}

abbrev prefs : RankPrefs
prefs = record { resolution = codes "1080p"; languages = codes "en"; kind = codes "movie" }

film_is_torrent : (n : ℕ) → is_http (film n) ≡ false
unfolding is_http text_eq
film_is_torrent n = refl

cam_is_dropped : screen (record (film 9) { title = codes "Dune HDCAM" } ∷ film 5 ∷ []) ≡ film 5 ∷ []
unfolding screen openable source_quality_score text_eq is_http
cam_is_dropped = refl

rank-IsTop_example :
    IsTop max_results
      (map (scored whole plain prefs) (screen (film 5 ∷ film 9 ∷ [])))
      (rank whole plain (film 5 ∷ film 9 ∷ []) prefs)
rank-IsTop_example = rank-IsTop whole plain (film 5 ∷ film 9 ∷ []) prefs

abbrev two : List StreamSource
two = film 5 ∷ film 9 ∷ []

screen_lem_example :
    All (λ s. is_proper s ≡ true) (screen two)
    × (All (λ s. is_alive s ≡ true) (screen two) ⊎ All (λ s. is_alive s ≡ false) (screen two))
    × (All (λ s. openable s ≡ true) (screen two) ⊎ All (λ s. openable s ≡ false) (screen two))
    × (filter is_good (screen two) ≡ filter is_good two)
screen_lem_example = screen_lem two

swarm_is_small : neg 2147483000 ≤ℤ swarm_score whole (film 5)
unfolding swarm_score is_http text_eq log2_table
swarm_is_small = omega arith

score-IsI32_example :
    IsI32 (swarm_score whole (film 5))
    × All IsI32 (
        partial_sums
          (first_summand whole plain (film 5) prefs)
          (more_summands whole plain (film 5) prefs))
    × (last (
          partial_sums
            (first_summand whole plain (film 5) prefs)
            (more_summands whole plain (film 5) prefs))
        ≡ score whole plain (film 5) prefs)
    × (score whole plain (film 5) prefs ≤ℤ pos 1430)
score-IsI32_example = score-IsI32 whole whole_laws plain (film 5) prefs swarm_is_small
