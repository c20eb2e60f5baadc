-- ===== src/Jackett/Episodes.antt =====
-- backend/src/jackett.rs: which releases serve an episode, and the query that asks for one.
use peanut_butter.Prelude.{
  ℕ, Bool, true, false, Option, none, some, List, [], ◌∷◌, ◌++◌, ◌&&◌, ◌||◌, not, if◌then◌else◌,
  any, filter, ltb_ℤ, leb_ℤ, eqb_ℤ, is_empty, unwrap_or, ℤ, pos, length, ltb, get_elem?,
}
use peanut_butter.Text.{
  Text, codes, contains, trim, split_whitespace, join, to_ascii_uppercase, parse_i32, show_i32,
}
use peanut_butter.Outside.Regexes.{Regexes, is_match}
use peanut_butter.Sources.Types.{StreamSource}
use peanut_butter.Jackett.Tokens.{padded, has_token}

-- The pattern of an episode, with its two numbers written in.
unfoldable pub episode_pattern : ℤ → ℤ → Text
unfolding show_i32
episode_pattern season episode =
    let s = show_i32 season in
    let e = show_i32 episode in
    codes "(?i)(?:^|[^a-z0-9])(?:s0*"
    ++ (s
        ++ (codes "[ ._-]?e0*"
            ++ (e
                ++ (codes "|0*"
                    ++ (s
                        ++ (codes "x0*"
                            ++ (e
                                ++ (codes "|season[ ._-]*0*"
                                    ++ (s
                                        ++ (codes "[ ._-]*(?:episode[ ._-]*)?0*"
                                            ++ (e ++ codes ")(?:[^0-9]|$)")))))))))))

abbrev pub any_episode_pattern : Text
any_episode_pattern =
    codes "(?i)(?:^|[^a-z0-9])(?:s(\\d{1,2})e(\\d{1,3})|(\\d{1,2})x(\\d{1,3}))(?:[^0-9]|$)"

-- `caps.get(n)`.
unfoldable pub group : List (Option Text) → ℕ → Option Text
group caps n = elim (get_elem? caps n) [ some g ↦ g | none ↦ none ]

unfoldable pub number_or_zero : Text → ℤ
unfolding parse_i32
number_or_zero s = unwrap_or (parse_i32 s) (pos 0)

-- Two groups as numbers, where both took part in the match.
unfoldable pub pair_of : Option Text → Option Text → Option (ℤ × ℤ)
unfolding number_or_zero
pair_of none b = none
pair_of (some a) none = none
pair_of (some a) (some b) = some (number_or_zero a, number_or_zero b)

-- The season and the episode that a match names, in either form.
unfoldable pub numbers_of : List (Option Text) → Option (ℤ × ℤ)
unfolding group pair_of
numbers_of caps = elim (pair_of (group caps 1) (group caps 2)) [
  | some p ↦ some p
  | none ↦ pair_of (group caps 3) (group caps 4)
]

unfoldable pub names_other : ℤ → ℤ → List (Option Text) → Bool
unfolding numbers_of
names_other season episode caps = elim (numbers_of caps) [
  | none ↦ false
  | some (s, e) ↦ eqb_ℤ s season && not (eqb_ℤ e episode) || not (eqb_ℤ s season)
]

-- `if let Ok(n) = … { if n > 0 && !out.contains(&n) { out.push(n) } }`, for each match.
unfoldable pub push_season : List ℤ → Option ℤ → List ℤ
push_season out none = out
push_season out (some n) = if ltb_ℤ (pos 0) n && not (any (eqb_ℤ n) out) then out ++ n ∷ [] else out

unfoldable pub push_seasons : List ℤ → List (List (Option Text)) → List ℤ
unfolding push_season group parse_i32
push_seasons out [] = out
push_seasons out (caps ∷ rest) =
    push_seasons (push_season out (elim (group caps 1) [ some s ↦ parse_i32 s | none ↦ none ])) rest

module _ (re : Regexes) where
  unfoldable pub torrent_matches_episode : Text → ℤ → ℤ → Bool
  unfolding is_match episode_pattern
  torrent_matches_episode title season episode =
      if leb_ℤ season (pos 0) || leb_ℤ episode (pos 0)
      then false
      else is_match re (episode_pattern season episode) title

  unfoldable pub torrent_has_other_episode : Text → ℤ → ℤ → Bool
  unfolding names_other
  torrent_has_other_episode title season episode = elim (re.captures any_episode_pattern) [
    | none ↦ false
    | some captures_iter ↦ any (names_other season episode) (captures_iter title)
  ]

  unfoldable pub torrent_named_seasons : Text → List ℤ
  unfolding padded push_seasons
  torrent_named_seasons title =
      let h = padded title in
      elim (re.captures (codes " s(\\d{1,2}) ")) [
        | none ↦ []
        | some short ↦
            (let out = push_seasons [] (short h) in
              elim (re.captures (codes " season (\\d{1,2}) ")) [
                | none ↦ out
                | some long ↦ push_seasons out (long h)
              ])
      ]

  unfoldable pub torrent_is_season_pack : Text → ℤ → Bool
  unfolding padded has_token torrent_named_seasons
  torrent_is_season_pack title season =
      let h = padded title in
      let seasons = torrent_named_seasons title in
      if any (λ s. not (eqb_ℤ s season)) seasons && not (any (eqb_ℤ season) seasons)
      then false
      else if any (eqb_ℤ season) seasons
      then true
      else (has_token h (codes "complete") || has_token h (codes "pack"))
        && is_empty seasons
        && eqb_ℤ season (pos 1)

  unfoldable pub torrent_usable_for_episode : Text → ℤ → ℤ → Bool
  unfolding torrent_matches_episode torrent_has_other_episode torrent_is_season_pack
  torrent_usable_for_episode title season episode =
      if leb_ℤ season (pos 0) || leb_ℤ episode (pos 0)
      then false
      else if torrent_matches_episode title season episode
      then true
      else if torrent_has_other_episode title season episode
      then false
      else torrent_is_season_pack title season

  unfoldable pub filter_episode : List StreamSource → Option ℤ → Option ℤ → List StreamSource
  unfolding torrent_usable_for_episode
  filter_episode sources none episode = sources
  filter_episode sources (some s) none = sources
  filter_episode sources (some s) (some e) =
      filter (λ src. torrent_usable_for_episode src.title s e) sources

  unfoldable pub strip_episode_tag : Text → Text
  unfolding split_whitespace join
  strip_episode_tag raw =
      elim (re.replace_all
        (codes "(?i)(?:^|\\s)(?:s\\d{1,2}e\\d{1,3}|\\d{1,2}x\\d{1,3})(?:\\s|$)")) [
          | none ↦ raw
          | some replace ↦ join (split_whitespace (replace raw (codes " "))) (codes " ")
        ]

  unfoldable pub strip_trailing_year : Text → Text
  unfolding trim
  strip_trailing_year raw = elim (re.replace (codes "(?i)(?:^|\\s)((?:19|20)\\d{2})\\s*$")) [
    | none ↦ raw
    | some replace ↦ trim (replace raw [])
  ]

  -- `{n:02}`.
  unfoldable pub two_digits : ℤ → Text
  unfolding show_i32
  two_digits n = let s = show_i32 n in if ltb (length s) 2 then b'0' ∷ s else s

  unfoldable pub build_query : Text → Option ℤ → Option ℤ → Text
  unfolding strip_episode_tag strip_trailing_year two_digits to_ascii_uppercase contains trim
  build_query query season episode =
      let q = strip_trailing_year (strip_episode_tag (trim query)) in
      let tagged = λ (s e : ℤ).
        (let tag = codes "S" ++ (two_digits s ++ (codes "E" ++ two_digits e)) in
          if contains (to_ascii_uppercase q) tag then q else q ++ (b' ' ∷ tag)) in
      if is_empty q
      then []
      else elim season [ none ↦ q | some s ↦ elim episode [ none ↦ q | some e ↦ tagged s e ] ]
