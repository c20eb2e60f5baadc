-- ===== src/Rank/Score/Bounds.antt =====
-- The range of each part of the score, and of their sums.
use peanut_butter.Prelude.{
  ℕ, ◌≤◌, refl, ◌≡◌, Bool, Option, none, some, ◌==◌, arith, Bool-cases, inl, inr, ℤ, pos, ◌≤ℤ◌,
  ◌-ℤ◌, ◌*ℤ◌, neg, List, [], ◌∷◌, All, int_laws, subst,
}
use peanut_butter.Text.{Text, codes, text_eq}
use peanut_butter.Outside.Regexes.{Regexes}
use peanut_butter.Outside.Floats.{Floats, FloatLaws}
use peanut_butter.Sources.Types.{StreamSource, is_http}
use peanut_butter.Jackett.Tokens.{has_token, padded, source_quality_score, quality_of}
use peanut_butter.Jackett.Episode.{episode_specificity}
use peanut_butter.Rank.Resolution.{
  detect_resolution, resolution_score, step_score, ladder_pos, preferred_resolution,
}
use peanut_butter.Rank.Score.Sums.{
  Within, IsI32, partial_sums, last, AreSmall, Within-IsI32, partial_sums-IsI32,
}
use peanut_butter.Rank.Score.{
  RankPrefs, language_score, log_points, swarm_score, is_pack, gb_per_hour, size_deductions,
  size_score, episode_score, score,
}

step_score-Within : (d : ℤ) → Within 0 500 (step_score d)
unfolding step_score
step_score-Within d = ground arith

resolution_score-Within :
    (found : Option ℕ) (preferred : Text) → Within 0 500 (resolution_score found preferred)
unfolding resolution_score
resolution_score-Within none preferred = omega arith
resolution_score-Within (some r) preferred =
    step_score-Within (pos (ladder_pos r) -ℤ pos (ladder_pos (preferred_resolution preferred)))

quality_of-Within : (a b c d e : Bool) → Within 0 150 (quality_of a b c d e *ℤ pos 25)
unfolding quality_of ◌*ℤ◌
quality_of-Within a b c d e = ground arith

source_quality_score-Within : (title : Text) → Within 0 150 (source_quality_score title *ℤ pos 25)
unfolding source_quality_score
source_quality_score-Within title = quality_of-Within _ _ _ _ _

language_score-Within : (found preferred : Text) → Within 200 120 (language_score found preferred)
unfolding language_score
language_score-Within found preferred = ground arith

module _ (re : Regexes) where
  episode_specificity-cases : (title : Text) → Within 0 2 (episode_specificity re title)
  unfolding episode_specificity
  episode_specificity-cases title = ground arith

-- The ranges of what is added.
abbrev ranges : List (ℕ × ℕ)
ranges = (2147483000, 620) ∷ (200, 120) ∷ (0, 150) ∷ (290, 0) ∷ (0, 40) ∷ []

ranges-AreSmall : AreSmall 0 500 ranges
ranges-AreSmall = (
  omega arith,
  omega arith,
  (
    omega arith,
    omega arith,
    (
      omega arith,
      omega arith,
      (omega arith, omega arith, (omega arith, omega arith, (omega arith, omega arith))),
    ),
  ),
)

module _ (fl : Floats) (re : Regexes) where
  -- What the score starts with, and what is added to it, in this order.
  abbrev pub first_summand : StreamSource → RankPrefs → ℤ
  first_summand s prefs = resolution_score (detect_resolution s.title) prefs.resolution

  abbrev pub more_summands : StreamSource → RankPrefs → List ℤ
  more_summands s prefs =
      swarm_score fl s
      ∷ language_score s.language prefs.languages
      ∷ source_quality_score s.title *ℤ pos 25
      ∷ size_score fl re s (detect_resolution s.title) prefs
      ∷ episode_score fl re s.title prefs.kind
      ∷ []

module _ (fl : Floats) (laws : FloatLaws fl) where
  open fl use {lit, of_ℕ, add, mul, log2, min as fmin}

  log_points_bound : (factor cap : ℕ) (n : ℤ) → cap ≤ 1000 → log_points fl factor cap n ≤ℤ pos cap
  unfolding log_points
  log_points_bound factor cap n few =
      subst (λ (x : ℤ). log_points fl factor cap n ≤ℤ x) (laws.to_i32_lit cap few)
        (laws.to_i32_mono _ _ (laws.min_right _ cap))

  swarm_score_bound : (s : StreamSource) → swarm_score fl s ≤ℤ pos 620
  unfolding swarm_score
  swarm_score_bound s = elim (Bool-cases (is_http s)) [
    | inl h ↦ rw h (omega arith)
    | inr h ↦ elim (Bool-cases (text_eq s.health (codes "unknown"))) [
      | inl k ↦ rw (h, k) (omega arith)
      | inr k ↦
          rw (h, k)
            (omega (
              int_laws,
              log_points_bound 70 560 s.seeders (omega arith),
              log_points_bound 8 60 s.peers (omega arith),
            ))
    ]
  ]

  module _ (re : Regexes) where
    size_deductions-Within :
        (gb : fl.F) (res : Option ℕ) (remux : Bool) (preferred : ℕ)
        → Within 290 0 (size_deductions fl re gb res remux preferred)
    unfolding size_deductions ◌-ℤ◌
    size_deductions-Within gb res remux preferred = ground arith

    size_score-Within :
        (s : StreamSource) (res : Option ℕ) (prefs : RankPrefs)
        → Within 290 0 (size_score fl re s res prefs)
    unfolding size_score
    size_score-Within s res prefs = elim (Bool-cases (s.size_bytes == 0)) [
      | inl h ↦ rw h (omega arith)
      | inr h ↦ elim (Bool-cases (is_pack fl re s prefs)) [
        | inl k ↦ rw (h, k) (omega arith)
        | inr k ↦
            rw (h, k)
              (size_deductions-Within (gb_per_hour fl re s prefs) res
                (has_token (padded s.title) (codes "remux"))
                (preferred_resolution prefs.resolution))
      ]
    ]

    episode_score-Within : (title kind : Text) → Within 0 40 (episode_score fl re title kind)
    unfolding episode_score ◌-ℤ◌ ◌*ℤ◌ episode_specificity
    episode_score-Within title kind = ground arith

    score_bound : (s : StreamSource) (prefs : RankPrefs) → score fl re s prefs ≤ℤ pos 1430
    unfolding score
    score_bound s prefs =
        let res = detect_resolution s.title in
        omega (
          int_laws,
          (resolution_score-Within res prefs.resolution).1,
          swarm_score_bound s,
          (language_score-Within s.language prefs.languages).1,
          (source_quality_score-Within s.title).1,
          (size_score-Within s res prefs).1,
          (episode_score-Within s.title prefs.kind).1,
        )

    -- The score is at most 1430. Unless the part for the swarm lies within 648 of the least `i32`, no
    -- addition of the score overflows an `i32`: neither the one inside that part nor any of the sums
    -- up to the last one, which is the score.
    pub score-IsI32 :
        (s : StreamSource) (prefs : RankPrefs)
        → neg 2147483000 ≤ℤ swarm_score fl s
        → IsI32 (swarm_score fl s)
          × All IsI32 (partial_sums (first_summand fl re s prefs) (more_summands fl re s prefs))
          × (last (partial_sums (first_summand fl re s prefs) (more_summands fl re s prefs))
              ≡ score fl re s prefs)
          × (score fl re s prefs ≤ℤ pos 1430)
    unfolding score
    score-IsI32 s prefs known =
        let res = detect_resolution s.title in
        let swarm : Within 2147483000 620 (swarm_score fl s) = (known, swarm_score_bound s) in
        (
          Within-IsI32 2147483000 620 (swarm_score fl s) (omega arith) (omega arith) swarm,
          partial_sums-IsI32 0 500 ranges (first_summand fl re s prefs)
              (more_summands fl re s prefs) ranges-AreSmall
              (resolution_score-Within res prefs.resolution)
              (
                swarm,
                (
                  language_score-Within s.language prefs.languages,
                  (
                    source_quality_score-Within s.title,
                    (size_score-Within s res prefs, (episode_score-Within s.title prefs.kind, tt)),
                  ),
                ),
              ),
          refl,
          score_bound s prefs,
        )
