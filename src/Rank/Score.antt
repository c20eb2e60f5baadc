-- ===== src/Rank/Score.antt =====
-- backend/src/sources/rank.rs: the score of a result.
pub mod Sums
pub mod Bounds
use peanut_butter.Prelude.{
  ℕ, suc, ◌+◌, ◌-◌, ◌*◌, ◌≡◌, refl, Bool, true, false, Option, none, some, List, [], ◌∷◌, ◌&&◌,
  ◌||◌, not, ◌==◌, if◌then◌else◌, leb, ltb, map, filter, any, is_empty, is_some, min, ℤ, pos,
  negsuc, ◌+ℤ◌, ◌-ℤ◌, ◌*ℤ◌, neg, max_ℤ, pos_part, ltb_ℤ,
}
use peanut_butter.Text.{Text, codes, text_eq, trim, to_ascii_lowercase, split, member}
use peanut_butter.Outside.Regexes.{Regexes}
use peanut_butter.Outside.Floats.{Floats}
use peanut_butter.Sources.Types.{StreamSource, is_http}
use peanut_butter.Jackett.Tokens.{padded, has_token, source_quality_score}
use peanut_butter.Jackett.Episode.{episode_specificity}
use peanut_butter.Rank.Resolution.{detect_resolution, preferred_resolution, resolution_score}

pub record RankPrefs : Type 0 where
  pub resolution : Text
  pub languages : Text
  pub kind : Text

-- The separators of a list of languages.
unfoldable pub is_separator : ℕ → Bool
is_separator c = c == b',' || c == b'/' || c == b'|' || c == b'+'

-- The codes of such a list, less the empty one and a word that says nothing.
unfoldable pub codes_of : Text → Text → List Text
unfolding is_separator split trim to_ascii_lowercase text_eq
codes_of raw skip =
    filter (λ p. not (is_empty p) && not (text_eq p skip))
      (map (λ p. to_ascii_lowercase (trim p)) (split raw is_separator))

-- `position`.
unfoldable pub position {ℓ} : {A : Type ℓ} → (A → Bool) → List A → Option ℕ
position p [] = none
position p (x ∷ xs) =
    let rest = position p xs in
    if p x then some 0 else elim rest [ none ↦ none | some i ↦ some (suc i) ]

unfoldable pub language_score : Text → Text → ℤ
unfolding codes_of position member
language_score found preferred =
    let wanted = codes_of preferred (codes "all") in
    let tagged = codes_of found (codes "unknown") in
    if is_empty wanted then pos 0 else elim (position (member tagged) wanted) [
      | some i ↦ pos (120 - min (i * 10) 40)
      | none ↦
          if member tagged (codes "multi")
          then pos 80
          else if is_empty tagged
          then if member wanted (codes "en") then pos 40 else pos 0
          else neg 200
    ]

module _ (fl : Floats) where
  open fl use {F, lit, of_ℕ, add, mul, div, powi, log2, min as fmin, lt, to_i32}

  -- `(log(n) * factor).min(cap) as i32`, where `log` is log2 (max n 0 + 1).
  unfoldable pub log_points : ℕ → ℕ → ℤ → ℤ
  log_points factor cap n =
      to_i32 (fmin (mul (log2 (add (of_ℕ (pos_part n)) (lit 1 0))) (lit factor 0)) (lit cap 0))

  unfoldable pub swarm_score : StreamSource → ℤ
  unfolding is_http log_points ◌+ℤ◌
  swarm_score s =
      if is_http s
      then pos 380
      else if text_eq s.health (codes "unknown")
      then pos 120
      else log_points 70 560 s.seeders +ℤ log_points 8 60 s.peers

  -- The least size in GB per hour that is believed for a resolution.
  unfoldable pub size_floor : Option ℕ → F
  size_floor none = lit 0 0
  size_floor (some res) =
      if res == 2160
      then lit 2 0
      else if res == 1080
      then lit 45 2
      else if res == 720
      then lit 2 1
      else lit 0 0

  module _ (re : Regexes) where
    unfoldable pub is_movie : StreamSource → RankPrefs → Bool
    unfolding episode_specificity
    is_movie s prefs =
        text_eq prefs.kind (codes "movie")
        || is_empty prefs.kind && ltb_ℤ (episode_specificity re s.title) (pos 2)

    -- A season pack, whose size says nothing per hour.
    unfoldable pub is_pack : StreamSource → RankPrefs → Bool
    unfolding is_movie
    is_pack s prefs = not (is_movie s prefs) && ltb_ℤ (episode_specificity re s.title) (pos 2)

    -- The three deductions for a size.
    unfoldable pub size_deductions : F → Option ℕ → Bool → ℕ → ℤ
    unfolding size_floor ◌-ℤ◌
    size_deductions gb res remux preferred =
        let small = (if lt gb (size_floor res) then neg 150 else pos 0) in
        let with_heavy =
          (if lt (lit 25 0) gb
            then small -ℤ pos 80
            else if leb preferred 1080 && lt (lit 12 0) gb && not remux
            then small -ℤ pos 40
            else small) in
        if remux && leb preferred 1080 then with_heavy -ℤ pos 60 else with_heavy

    unfoldable pub gb_per_hour : StreamSource → RankPrefs → F
    unfolding is_movie
    gb_per_hour s prefs =
        div (div (of_ℕ s.size_bytes) (powi (lit 1024 0) 3))
          (if is_movie s prefs then lit 2 0 else lit 75 2)

    unfoldable pub size_score : StreamSource → Option ℕ → RankPrefs → ℤ
    unfolding is_pack gb_per_hour size_deductions
    size_score s res prefs =
        if s.size_bytes == 0
        then pos 0
        else if is_pack s prefs
        then pos 0
        else size_deductions (gb_per_hour s prefs) res (has_token (padded s.title) (codes "remux"))
            (preferred_resolution prefs.resolution)

    unfoldable pub episode_score : Text → Text → ℤ
    unfolding ◌-ℤ◌ ◌*ℤ◌
    episode_score title kind =
        if text_eq kind (codes "movie")
        then pos 0
        else (episode_specificity re title -ℤ pos 1) *ℤ pos 40

    unfoldable pub score : StreamSource → RankPrefs → ℤ
    unfolding swarm_score size_score episode_score ◌+ℤ◌ ◌*ℤ◌
    score s prefs =
        let res = detect_resolution s.title in
        resolution_score res prefs.resolution
        +ℤ swarm_score s
        +ℤ language_score s.language prefs.languages
        +ℤ source_quality_score s.title *ℤ pos 25
        +ℤ size_score s res prefs
        +ℤ episode_score s.title prefs.kind
