-- ===== src/Jackett/Tokens.antt =====
-- backend/src/jackett.rs: the tokens of a release name, and the classes that they decide.
use peanut_butter.Prelude.{
  refl, ◌≡◌, ℕ, Bool, ◌&&◌, ◌||◌, List, [], ◌∷◌, ◌++◌, map, if◌then◌else◌, any, ℤ, pos,
}
use peanut_butter.Text.{
  Text, codes, contains, is_ascii_alphanumeric, ascii_lower, to_ascii_lowercase, member,
}

-- What `padded` writes for a character.
unfoldable pub pad : ℕ → ℕ
unfolding is_ascii_alphanumeric ascii_lower
pad c = if is_ascii_alphanumeric c then ascii_lower c else b' '

unfoldable pub padded : Text → Text
unfolding pad
padded title = b' ' ∷ (map pad title ++ b' ' ∷ [])

unfoldable pub has_token : Text → Text → Bool
unfolding contains
has_token haystack token = contains haystack (b' ' ∷ (token ++ b' ' ∷ []))

unfoldable pub has_any : Text → List Text → Bool
unfolding has_token
has_any haystack tokens = any (has_token haystack) tokens

-- The tokens of a telesync, a screener and the like.
abbrev pub cam_tokens : List Text
cam_tokens =
    codes "cam"
    ∷ codes "camrip"
    ∷ codes "hdcam"
    ∷ codes "hdts"
    ∷ codes "telesync"
    ∷ codes "telecine"
    ∷ codes "hd-ts"
    ∷ codes "hd-tc"
    ∷ codes "screener"
    ∷ codes "dvdscr"
    ∷ codes "r5"
    ∷ []

unfoldable pub looks_like_cam : Text → Bool
unfolding has_any
looks_like_cam padded_title =
    has_any padded_title cam_tokens
    || has_token padded_title (codes "ts")
    || has_token padded_title (codes "tc")

abbrev pub sample_tokens : List Text
sample_tokens =
    codes "sample"
    ∷ codes "trailer"
    ∷ codes "extra"
    ∷ codes "extras"
    ∷ codes "featurette"
    ∷ codes "featurettes"
    ∷ codes "bonus"
    ∷ codes "promo"
    ∷ []

unfoldable pub looks_like_sample : Text → Bool
unfolding has_any padded
looks_like_sample title = has_any (padded title) sample_tokens

unfoldable pub looks_like_sign_language : Text → Bool
unfolding has_token padded to_ascii_lowercase
looks_like_sign_language title =
    let t = to_ascii_lowercase title in
    let h = padded title in
    contains t (codes "sign language")
    || contains t (codes "signlanguage")
    || contains t (codes "signed english")
    || contains t (codes "deaf")
    || has_token h (codes "asl")
    || has_token h (codes "bsl")
    || has_token h (codes "signed")
    || has_token h (codes "sign") && (has_token h (codes "lang") || has_token h (codes "language"))

-- The ladder of `source_quality_score`, by what the name says of its source.
unfoldable pub quality_of : (cam remux disc web hdtv : Bool) → ℤ
quality_of cam remux disc web hdtv =
    if cam
    then pos 0
    else if remux
    then pos 6
    else if disc
    then pos 5
    else if web
    then pos 4
    else if hdtv
    then pos 3
    else pos 2

unfoldable pub source_quality_score : Text → ℤ
unfolding has_token padded looks_like_cam quality_of
source_quality_score title =
    let h = padded title in
    quality_of (looks_like_cam h) (has_token h (codes "remux"))
      (has_token h (codes "bluray")
        || has_token h (codes "bdrip")
        || has_token h (codes "bdremux")
        || has_token h (codes "uhd")
        || has_token h (codes "blu") && has_token h (codes "ray"))
      (has_token h (codes "webdl")
        || has_token h (codes "webrip")
        || has_token h (codes "web") && (has_token h (codes "dl") || has_token h (codes "rip")))
      (has_token h (codes "hdtv"))

-- `let mut push = |code, tokens| …` of `language_codes`.
unfoldable pub push_code : Text → List Text → Text → List Text → List Text
unfolding has_any member
push_code h out code tokens =
    if member out code then out else if has_any h tokens then out ++ code ∷ [] else out

hdcam_scores_zero : source_quality_score (codes "Dune.2021.HDCAM") ≡ pos 0
unfolding source_quality_score
hdcam_scores_zero = refl

bluray_scores_five : source_quality_score (codes "Dune.2021.1080p.BluRay.x264") ≡ pos 5
unfolding source_quality_score
bluray_scores_five = refl
