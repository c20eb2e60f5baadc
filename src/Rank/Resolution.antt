-- ===== src/Rank/Resolution.antt =====
-- backend/src/sources/rank.rs: the resolution that a release name states, and its score.
use peanut_butter.Prelude.{
  ℕ, ◌≡◌, refl, ◌||◌, Option, none, some, [], ◌∷◌, if◌then◌else◌, ◌==◌, ℤ, pos, ◌-ℤ◌, eqb_ℤ, neg,
}
use peanut_butter.Text.{Text, codes, contains, text_eq, to_ascii_lowercase, trim}
use peanut_butter.Jackett.Tokens.{padded, has_any}

unfoldable pub detect_resolution : Text → Option ℕ
unfolding padded has_any
detect_resolution title =
    let h = padded title in
    if has_any h (codes "2160p" ∷ codes "2160" ∷ [])
    then some 2160
    else if has_any h (codes "1080p" ∷ codes "1080i" ∷ codes "1080" ∷ [])
    then some 1080
    else if has_any h (codes "720p" ∷ codes "720" ∷ [])
    then some 720
    else if has_any h (codes "480p" ∷ codes "576p" ∷ [])
    then some 480
    else if has_any h (codes "4k" ∷ codes "uhd" ∷ [])
    then some 2160
    else if has_any h (codes "sd" ∷ codes "dvdrip" ∷ codes "xvid" ∷ [])
    then some 480
    else none

unfoldable pub preferred_resolution : Text → ℕ
unfolding trim to_ascii_lowercase contains text_eq
preferred_resolution raw =
    let q = to_ascii_lowercase (trim raw) in
    if contains q (codes "2160") || text_eq q (codes "4k")
    then 2160
    else if contains q (codes "720")
    then 720
    else if contains q (codes "480")
    then 480
    else 1080

-- The place in `LADDER`, and 2 for what does not stand there.
unfoldable pub ladder_pos : ℕ → ℕ
ladder_pos r =
    if r == 480
    then 0
    else if r == 720
    then 1
    else if r == 1080
    then 2
    else if r == 2160
    then 3
    else 2

-- The score of a step up or down from what was asked.
unfoldable pub step_score : ℤ → ℤ
step_score d =
    if eqb_ℤ d (pos 0)
    then pos 500
    else if eqb_ℤ d (neg 1)
    then pos 320
    else if eqb_ℤ d (neg 2)
    then pos 150
    else if eqb_ℤ d (pos 1)
    then pos 300
    else if eqb_ℤ d (pos 2)
    then pos 200
    else pos 50

unfoldable pub resolution_score : Option ℕ → Text → ℤ
unfolding preferred_resolution ladder_pos step_score ◌-ℤ◌
resolution_score none preferred = pos 250
resolution_score (some found) preferred =
    step_score (pos (ladder_pos found) -ℤ pos (ladder_pos (preferred_resolution preferred)))

uhd_words_yield : detect_resolution (codes "Troy 2004 1080p UHD BluRay DV HDR") ≡ some 1080
unfolding detect_resolution
uhd_words_yield = refl
