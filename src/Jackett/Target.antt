-- ===== src/Jackett/Target.antt =====
-- backend/src/jackett.rs: `SearchTarget`, which decides whether a release found by text is what was
-- asked for. Years are far from the bounds of an `i32`.
pub mod Prefix
pub mod Laws
pub mod Candidates
pub mod Matching
use peanut_butter.Prelude.{
  ℕ, zero, suc, ◌+◌, Bool, true, false, Option, none, some, List, [], ◌∷◌, ◌++◌, ◌&&◌, ◌||◌, not,
  ◌==◌, if◌then◌else◌, any, all, filter, leb, ltb, leb_ℤ, eqb_ℤ, is_empty, ℤ, pos, ◌+ℤ◌, ◌>>=◌,
}
use peanut_butter.Text.{
  Text, codes, text_eq, utf8, len, split, split_once, split_whitespace, is_ascii_digit, parse_i32,
  trim, starts_with,
}
use peanut_butter.Outside.Unicode.{Unicode}
use peanut_butter.Jackett.ReleaseTags.{is_release_tag}
use peanut_butter.Jackett.Target.Prefix.{strip_release_prefix}

pub record SearchTarget : Type 0 where
  pub title : Text
  pub alt_titles : List Text
  pub year : Option ℤ
  pub imdb_id : Option Text

-- The id, where it is one.
unfoldable pub imdb : SearchTarget → Option Text
unfolding trim starts_with len
imdb t = do
  raw ← t.imdb_id
  let s = trim raw
  if starts_with s (codes "tt") && ltb 2 (len s) then some s else none

unfoldable pub tokens_eq : List Text → List Text → Bool
unfolding text_eq
tokens_eq [] [] = true
tokens_eq [] (y ∷ ys) = false
tokens_eq (x ∷ xs) [] = false
tokens_eq (x ∷ xs) (y ∷ ys) = text_eq x y && tokens_eq xs ys

-- What stands behind these tokens in a list that starts with them.
unfoldable pub rest_after : List Text → List Text → Option (List Text)
unfolding text_eq
rest_after rs [] = some rs
rest_after [] (c ∷ cs) = none
rest_after (r ∷ rs) (c ∷ cs) = if text_eq r c then rest_after rs cs else none

-- The tokens that a release name may start with, and whether they are a shortened form.
abbrev pub Candidate : Type 0
Candidate = List Text × Bool

unfoldable pub push : List Candidate → List Text → Bool → List Candidate
unfolding tokens_eq
push out tokens needs_year =
    if not (is_empty tokens) && not (any (λ (c : Candidate). tokens_eq c.0 tokens) out)
    then out ++ (tokens, needs_year) ∷ []
    else out

-- Without a leading "the".
unfoldable pub push_without_the : List Candidate → List Text → List Candidate
unfolding push text_eq
push_without_the out [] = out
push_without_the out (t ∷ full) = if text_eq t (codes "the") then push out full false else out

-- What stands before the first colon or dash, where there is one.
unfoldable pub short_of : Text → Option Text
unfolding split len
short_of name = elim (split name (λ c. c == b':' || c == 0x2013)) [
  | [] ↦ none
  | s ∷ parts ↦ if ltb (len s) (len name) then some s else none
]

unfoldable pub year_token : Text → Option ℤ
unfolding len parse_i32
year_token tok =
    if not (len tok == 4)
    then none
    else (do y ← parse_i32 tok; if leb_ℤ (pos 1900) y && leb_ℤ y (pos 2099) then some y else none)

-- Up to three digits.
unfoldable pub digits : Text → Bool
unfolding len utf8 is_ascii_digit
digits x = not (is_empty x) && leb (len x) 3 && all is_ascii_digit (utf8 x)

-- "s02" and "s02e03", behind the `s`.
unfoldable pub is_season_part : Text → Bool
unfolding split_once digits
is_season_part rest = elim (split_once rest b'e') [
  | none ↦ digits rest
  | some (s, e) ↦ digits s && (is_empty e || digits e)
]

-- "2x03", or for anime a number.
unfoldable pub is_number_marker : Text → Text → Bool
unfolding split_once text_eq len utf8 is_ascii_digit
is_number_marker tok kind = elim (split_once tok b'x') [
  | some (s, e) ↦
      not (is_empty s)
      && not (is_empty e)
      && leb (len s) 2
      && leb (len e) 3
      && all is_ascii_digit (utf8 s)
      && all is_ascii_digit (utf8 e)
  | none ↦ text_eq kind (codes "anime") && leb (len tok) 4 && all is_ascii_digit (utf8 tok)
]

unfoldable pub is_episode_marker : Text → Text → Bool
unfolding is_season_part is_number_marker
is_episode_marker [] kind = is_number_marker [] kind
is_episode_marker (c ∷ rest) kind =
    if c == b's' && not (is_empty rest)
    then is_season_part rest
    else is_number_marker (c ∷ rest) kind

-- The first year in front of the release tags.
unfoldable pub year_before_tags : List Text → Option ℤ
unfolding is_release_tag year_token
year_before_tags [] = none
year_before_tags (tok ∷ rest) =
    let later = year_before_tags rest in
    if is_release_tag tok then none else elim (year_token tok) [ some y ↦ some y | none ↦ later ]

unfoldable pub is_none_or : (Text → Bool) → List Text → Bool
is_none_or p [] = true
is_none_or p (t ∷ rest) = p t

unfoldable pub year_ok : Option ℤ → ℤ → Bool → Bool
unfolding ◌+ℤ◌
year_ok none found exact = true
year_ok (some want) found exact =
    if exact then eqb_ℤ found want else leb_ℤ found (want +ℤ pos 1) && leb_ℤ want (found +ℤ pos 1)

-- What may follow the title of a film.
unfoldable pub movie_rest_ok : Option ℤ → List Text → Bool → Bool
unfolding year_before_tags year_ok is_none_or is_release_tag
movie_rest_ok year rest needs_year = elim (year_before_tags rest) [
  | some y ↦ year_ok year y needs_year
  | none ↦ not needs_year && is_none_or is_release_tag rest
]

-- What may follow the title of a show.
unfoldable pub show_rest_ok : Option ℤ → List Text → Text → Bool → Bool
unfolding year_token year_ok is_none_or is_episode_marker is_release_tag text_eq
show_rest_ok year [] kind needs_year = false
show_rest_ok year (first ∷ rest) kind needs_year = elim (year_token first) [
  | some y ↦
      year_ok year y needs_year
      && is_none_or (λ t. is_episode_marker t kind || is_release_tag t) rest
  | none ↦
      not needs_year
      && (is_episode_marker first kind
          || text_eq first (codes "season")
          || text_eq first (codes "complete")
          || text_eq first (codes "series"))
]

unfoldable pub rest_ok : SearchTarget → List Text → Text → Bool → Bool
unfolding movie_rest_ok show_rest_ok text_eq
rest_ok t rest kind needs_year =
    if text_eq kind (codes "movie")
    then movie_rest_ok t.year rest needs_year
    else show_rest_ok t.year rest kind needs_year

-- The release itself, and without a leading "the".
unfoldable pub variants_of : List Text → List (List Text)
unfolding text_eq
variants_of [] = [] ∷ []
variants_of (t ∷ rest) =
    if text_eq t (codes "the") && not (is_empty rest)
    then (t ∷ rest) ∷ rest ∷ []
    else (t ∷ rest) ∷ []

module _ (uni : Unicode) where
  -- What a character of a title is read as.
  unfoldable pub spell : ℕ → Text
  spell c =
      if c == b'\'' || c == 0x2019 || c == b'`'
      then []
      else if c == b'&'
      then codes " and "
      else if uni.is_alphanumeric c
      then uni.to_lowercase c
      else b' ' ∷ []

  unfoldable pub spelled : Text → Text
  unfolding spell
  spelled [] = []
  spelled (c ∷ raw) = spell c ++ spelled raw

  unfoldable pub title_tokens : Text → List Text
  unfolding spelled split_whitespace
  title_tokens raw = split_whitespace (spelled raw)

  -- The three candidates of a name.
  unfoldable pub push_name : List Candidate → Text → List Candidate
  unfolding title_tokens push push_without_the short_of
  push_name out name =
      let full = title_tokens name in
      let out' = push_without_the (push out full false) full in
      elim (short_of name) [ none ↦ out' | some short ↦ push out' (title_tokens short) true ]

  unfoldable pub push_names : List Candidate → List Text → List Candidate
  unfolding push_name
  push_names out [] = out
  push_names out (name ∷ names) = push_names (push_name out name) names

  unfoldable pub candidates : SearchTarget → List Candidate
  unfolding push_names
  candidates t = push_names [] (t.title ∷ t.alt_titles)

  unfoldable pub fits : SearchTarget → Text → Candidate → List Text → Bool
  unfolding rest_after rest_ok
  fits t kind (cand, needs_year) r = elim (rest_after r cand) [
    | none ↦ false
    | some rest ↦ rest_ok t rest kind needs_year
  ]

  unfoldable pub matches : SearchTarget → Text → Text → Bool
  unfolding title_tokens variants_of fits candidates strip_release_prefix
  matches t release kind =
      let rel = title_tokens (strip_release_prefix release) in
      not (is_empty rel) && any (λ c. any (fits t kind c) (variants_of rel)) (candidates t)
