-- ===== src/Subtitles.antt =====
-- backend/src/subtitles.rs: ids and languages of subtitles.
pub mod Laws
mod Tests
use peanut_butter.Prelude.{
  ℕ, Bool, true, false, Option, none, some, List, [], ◌∷◌, ◌++◌, ◌==◌, ◌&&◌, ◌||◌, if◌then◌else◌,
  not, is_empty, all, leb, take,
}
use peanut_butter.Text.{Text, codes, text_eq, trim, len, member, is_ascii_digit, to_ascii_lowercase}

-- `trim_start_matches` of a character that is written twice.
unfoldable pub trim_pairs : ℕ → Text → Text
trim_pairs c [] = []
trim_pairs c (a ∷ []) = a ∷ []
trim_pairs c (a ∷ b ∷ s) = let rest = trim_pairs c s in if a == c && b == c then rest else a ∷ b ∷ s

-- Digits behind "tt".
unfoldable pub with_digits : Text → Option Text
unfolding is_ascii_digit
with_digits digits =
    if is_empty digits || not (all is_ascii_digit digits) then none else some (b't' ∷ b't' ∷ digits)

unfoldable pub normalize_imdb : Option Text → Option Text
unfolding trim trim_pairs with_digits
normalize_imdb none = none
normalize_imdb (some raw) =
    let value = trim raw in
    if is_empty value then none else with_digits (trim_pairs b'T' (trim_pairs b't' value))

-- The names of each language that are longer than its code.
abbrev pub language_names : List (Text × List Text)
language_names =
    (codes "en", codes "eng" ∷ codes "english" ∷ codes "en-us" ∷ codes "en-gb" ∷ [])
    ∷ (codes "fr", codes "fre" ∷ codes "fra" ∷ codes "french" ∷ [])
    ∷ (codes "de", codes "ger" ∷ codes "deu" ∷ codes "german" ∷ [])
    ∷ (codes "es", codes "spa" ∷ codes "spanish" ∷ [])
    ∷ (codes "it", codes "ita" ∷ codes "italian" ∷ [])
    ∷ (codes "pt", codes "por" ∷ codes "pob" ∷ codes "portuguese" ∷ [])
    ∷ (codes "ja", codes "jpn" ∷ codes "japanese" ∷ [])
    ∷ (codes "ko", codes "kor" ∷ codes "korean" ∷ [])
    ∷ (codes "zh", codes "chi" ∷ codes "zho" ∷ codes "chinese" ∷ [])
    ∷ (codes "hi", codes "hin" ∷ codes "hindi" ∷ [])
    ∷ (codes "ar", codes "ara" ∷ codes "arabic" ∷ [])
    ∷ (codes "tr", codes "tur" ∷ codes "turkish" ∷ [])
    ∷ (codes "ru", codes "rus" ∷ codes "russian" ∷ [])
    ∷ (codes "th", codes "tha" ∷ codes "thai" ∷ [])
    ∷ (codes "id", codes "ind" ∷ codes "indonesian" ∷ [])
    ∷ []

unfoldable pub code_of : List (Text × List Text) → Text → Option Text
unfolding member
code_of [] lang = none
code_of ((code, names) ∷ table) lang = if member names lang then some code else code_of table lang

unfoldable pub normalize_lang : Text → Text
unfolding trim to_ascii_lowercase code_of len
normalize_lang lang =
    let other = to_ascii_lowercase (trim lang) in
    elim (code_of language_names other) [
      | some code ↦ code
      | none ↦ if leb 2 (len other) then take 2 other else codes "en"
    ]

abbrev pub language_labels : List (Text × List Text)
language_labels =
    (codes "English", codes "en" ∷ [])
    ∷ (codes "French", codes "fr" ∷ [])
    ∷ (codes "German", codes "de" ∷ [])
    ∷ (codes "Spanish", codes "es" ∷ [])
    ∷ (codes "Italian", codes "it" ∷ [])
    ∷ (codes "Portuguese", codes "pt" ∷ [])
    ∷ (codes "Japanese", codes "ja" ∷ [])
    ∷ (codes "Korean", codes "ko" ∷ [])
    ∷ (codes "Chinese", codes "zh" ∷ [])
    ∷ (codes "Hindi", codes "hi" ∷ [])
    ∷ (codes "Arabic", codes "ar" ∷ [])
    ∷ (codes "Turkish", codes "tr" ∷ [])
    ∷ (codes "Russian", codes "ru" ∷ [])
    ∷ (codes "Thai", codes "th" ∷ [])
    ∷ (codes "Indonesian", codes "id" ∷ [])
    ∷ []

-- `str::to_uppercase` is a parameter.
unfoldable pub language_label : (Text → Text) → Text → Text
unfolding normalize_lang code_of
language_label to_uppercase lang =
    let other = normalize_lang lang in
    elim (code_of language_labels other) [ some label ↦ label | none ↦ to_uppercase other ]

unfoldable pub lang_rank : Text → Text → ℕ
unfolding normalize_lang text_eq
lang_rank lang preferred =
    let normalized = normalize_lang lang in
    if text_eq normalized (normalize_lang preferred)
    then 0
    else if text_eq normalized (codes "en")
    then 1
    else 5
