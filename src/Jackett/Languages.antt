-- ===== src/Jackett/Languages.antt =====
-- backend/src/jackett.rs: the languages that a release name states, and whether they are wanted.
pub mod Laws
use peanut_butter.Prelude.{
  Bool, true, false, Option, none, some, List, [], ◌∷◌, ◌++◌, ◌&&◌, ◌||◌, not, ◌≡◌, refl,
  if◌then◌else◌, any, map, filter, is_empty,
}
use peanut_butter.Text.{Text, codes, text_eq, member, join, split, trim, to_ascii_lowercase}
use peanut_butter.Jackett.Tokens.{padded, has_token, push_code}
use peanut_butter.Rank.Score.{is_separator, codes_of}

-- The calls of `push`: a code, and the tokens that stand for it.
abbrev pub language_tokens : List (Text × List Text)
language_tokens =
    (codes "hi", codes "hindi" ∷ codes "hin" ∷ codes "hind" ∷ [])
    ∷ (codes "ja", codes "japanese" ∷ codes "nihongo" ∷ codes "jpn" ∷ codes "jap" ∷ [])
    ∷ (codes "ko", codes "korean" ∷ codes "korea" ∷ codes "kor" ∷ [])
    ∷ (
      codes "zh",
      codes "chinese"
          ∷ codes "mandarin"
          ∷ codes "cantonese"
          ∷ codes "chs"
          ∷ codes "cht"
          ∷ codes "cn"
          ∷ [],
    )
    ∷ (
      codes "es",
      codes "spanish"
          ∷ codes "espanol"
          ∷ codes "español"
          ∷ codes "latino"
          ∷ codes "castellano"
          ∷ codes "latam"
          ∷ codes "spa"
          ∷ [],
    )
    ∷ (
      codes "fr",
      codes "french"
          ∷ codes "francais"
          ∷ codes "français"
          ∷ codes "vff"
          ∷ codes "vfi"
          ∷ codes "truefrench"
          ∷ codes "vfq"
          ∷ codes "fra"
          ∷ [],
    )
    ∷ (codes "de", codes "german" ∷ codes "deutsch" ∷ codes "ger" ∷ codes "deu" ∷ [])
    ∷ (codes "it", codes "italian" ∷ codes "italiano" ∷ codes "ita" ∷ [])
    ∷ (
      codes "pt",
      codes "portuguese"
          ∷ codes "brazilian"
          ∷ codes "ptbr"
          ∷ codes "brasil"
          ∷ codes "brazil"
          ∷ codes "por"
          ∷ [],
    )
    ∷ (codes "ar", codes "arabic" ∷ codes "arab" ∷ [])
    ∷ (codes "tr", codes "turkish" ∷ codes "turkce" ∷ codes "turk" ∷ [])
    ∷ (codes "ru", codes "russian" ∷ codes "rus" ∷ [])
    ∷ (codes "th", codes "thai" ∷ [])
    ∷ (codes "id", codes "indonesian" ∷ codes "bahasa" ∷ codes "indo" ∷ [])
    ∷ (codes "nl", codes "dutch" ∷ codes "nederlands" ∷ codes "holland" ∷ [])
    ∷ (codes "pl", codes "polish" ∷ codes "polski" ∷ codes "pol" ∷ [])
    ∷ (codes "sv", codes "swedish" ∷ codes "svenska" ∷ [])
    ∷ (codes "no", codes "norwegian" ∷ codes "norsk" ∷ [])
    ∷ (codes "da", codes "danish" ∷ codes "dansk" ∷ [])
    ∷ (codes "fi", codes "finnish" ∷ codes "suomi" ∷ [])
    ∷ (codes "cs", codes "czech" ∷ codes "cesky" ∷ [])
    ∷ (codes "hu", codes "hungarian" ∷ codes "magyar" ∷ [])
    ∷ (codes "ro", codes "romanian" ∷ codes "romana" ∷ [])
    ∷ (codes "el", codes "greek" ∷ [])
    ∷ (codes "he", codes "hebrew" ∷ [])
    ∷ (codes "vi", codes "vietnamese" ∷ [])
    ∷ (codes "uk", codes "ukrainian" ∷ codes "ukr" ∷ [])
    ∷ (codes "bn", codes "bengali" ∷ codes "bangla" ∷ [])
    ∷ (codes "ta", codes "tamil" ∷ [])
    ∷ (codes "te", codes "telugu" ∷ [])
    ∷ (codes "ml", codes "malayalam" ∷ [])
    ∷ (codes "mr", codes "marathi" ∷ [])
    ∷ (codes "gu", codes "gujarati" ∷ [])
    ∷ (codes "kn", codes "kannada" ∷ [])
    ∷ (codes "pa", codes "punjabi" ∷ [])
    ∷ (codes "en", codes "english" ∷ codes "eng" ∷ [])
    ∷ []

unfoldable pub push_codes : Text → List (Text × List Text) → List Text → List Text
unfolding push_code
push_codes h [] out = out
push_codes h ((code, tokens) ∷ rest) out = push_codes h rest (push_code h out code tokens)

-- `if !out.contains(&code) { out.push(code) }`.
unfoldable pub push_new : Text → List Text → List Text
unfolding member
push_new code out = if member out code then out else out ++ code ∷ []

unfoldable pub push_nordic : Text → List Text → List Text
unfolding has_token push_new
push_nordic h out =
    if has_token h (codes "nordic") || has_token h (codes "scandinavian")
    then push_new (codes "da") (push_new (codes "no") (push_new (codes "sv") out))
    else out

unfoldable pub push_multi : Text → List Text → List Text
unfolding has_token push_new
push_multi h out =
    if has_token h (codes "multi") || has_token h (codes "dual") || has_token h (codes "dualaudio")
    then push_new (codes "multi") out
    else out

unfoldable pub language_codes : Text → List Text
unfolding padded push_codes push_nordic push_multi
language_codes title =
    let h = padded title in push_multi h (push_nordic h (push_codes h language_tokens []))

unfoldable pub languages_for_title : Text → Text
unfolding language_codes join
languages_for_title title = join (language_codes title) (codes ",")

unfoldable pub language_matches : List Text → Text → Bool
unfolding codes_of member text_eq
language_matches found preferred =
    let wanted = codes_of preferred (codes "all") in
    is_empty wanted
    || any (λ c. text_eq c (codes "multi")) found
    || any (λ c. not (text_eq c (codes "multi")) && member wanted c) found
    || is_empty found && member wanted (codes "en")

unfoldable pub stored_language : List Text → Text
unfolding join
stored_language found = if is_empty found then codes "unknown" else join found (codes ",")

-- The arms of the match that name a language.
abbrev pub query_terms : List (Text × Text)
query_terms =
    (codes "ja", codes "Japanese")
    ∷ (codes "ko", codes "Korean")
    ∷ (codes "zh", codes "Chinese")
    ∷ (codes "hi", codes "Hindi")
    ∷ (codes "es", codes "Spanish")
    ∷ (codes "fr", codes "French")
    ∷ (codes "de", codes "German")
    ∷ (codes "it", codes "Italian")
    ∷ (codes "pt", codes "Portuguese")
    ∷ (codes "ar", codes "Arabic")
    ∷ (codes "tr", codes "Turkish")
    ∷ (codes "ru", codes "Russian")
    ∷ (codes "th", codes "Thai")
    ∷ (codes "id", codes "Indonesian")
    ∷ []

unfoldable pub term_of : List (Text × Text) → Text → Option Text
unfolding text_eq
term_of [] code = none
term_of ((c, term) ∷ rest) code = if text_eq c code then some term else term_of rest code

unfoldable pub language_query_term : Text → Option Text
unfolding trim to_ascii_lowercase term_of
language_query_term code = term_of query_terms (to_ascii_lowercase (trim code))

unfoldable pub first_term : List Text → Option Text
unfolding trim language_query_term
first_term [] = none
first_term (part ∷ parts) =
    let rest = first_term parts in
    elim (language_query_term (trim part)) [ none ↦ rest | some term ↦ some term ]

unfoldable pub primary_language_term : Text → Option Text
unfolding split is_separator first_term
primary_language_term language = first_term (split language is_separator)
