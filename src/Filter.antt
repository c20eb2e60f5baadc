-- ===== src/Filter.antt =====
-- backend/src/content_filter.rs: what is kept out of the catalog.
pub mod Laws
mod Tests
use peanut_butter.Prelude.{Bool, List, [], ◌∷◌, ◌||◌}
use peanut_butter.Text.{
  Text, codes, text_eq, trim, contains, member, to_ascii_lowercase, to_ascii_uppercase,
}

abbrev pub blocked_genres : List Text
blocked_genres =
    codes "sex"
    ∷ codes "adult"
    ∷ codes "erotica"
    ∷ codes "erotic"
    ∷ codes "hentai"
    ∷ codes "porn"
    ∷ codes "pornographic"
    ∷ codes "pornography"
    ∷ codes "xxx"
    ∷ codes "softcore"
    ∷ codes "hardcore"
    ∷ codes "adult animation"
    ∷ codes "adults only"
    ∷ []

unfoldable pub is_blocked_genre : Text → Bool
unfolding trim to_ascii_lowercase member contains text_eq
is_blocked_genre name =
    let n = to_ascii_lowercase (trim name) in
    member blocked_genres n
    || contains n (codes "hentai")
    || contains n (codes "porn")
    || text_eq n (codes "x")

unfoldable pub is_blocked_content_rating : Text → Bool
unfolding trim to_ascii_uppercase member contains
is_blocked_content_rating rating =
    let r = to_ascii_uppercase (trim rating) in
    member (codes "XXX" ∷ codes "AO" ∷ codes "NC-17" ∷ codes "NC17" ∷ []) r
    || contains r (codes "XXX")

abbrev pub blocked_keywords : List Text
blocked_keywords =
    codes "erotic movie"
    ∷ codes "erotic film"
    ∷ codes "erotica"
    ∷ codes "erotic"
    ∷ codes "softcore"
    ∷ codes "soft core"
    ∷ codes "sexploitation"
    ∷ codes "pink film"
    ∷ codes "pinku eiga"
    ∷ codes "sex film"
    ∷ codes "adult film"
    ∷ codes "adult movie"
    ∷ codes "adult video"
    ∷ codes "xxx"
    ∷ codes "hardcore"
    ∷ codes "hardcore sex"
    ∷ codes "unsimulated sex"
    ∷ codes "explicit sex"
    ∷ []

unfoldable pub is_blocked_keyword : Text → Bool
unfolding trim to_ascii_lowercase member contains
is_blocked_keyword name =
    let n = to_ascii_lowercase (trim name) in
    member blocked_keywords n
    || contains n (codes "porn")
    || contains n (codes "hentai")
    || contains n (codes "softcore")

-- The genres of `BLOCKED_GENRE_SQL_LIST`.
abbrev pub sql_genres : List Text
sql_genres =
    codes "sex"
    ∷ codes "adult"
    ∷ codes "erotica"
    ∷ codes "erotic"
    ∷ codes "hentai"
    ∷ codes "porn"
    ∷ codes "pornographic"
    ∷ codes "pornography"
    ∷ codes "xxx"
    ∷ codes "softcore"
    ∷ codes "hardcore"
    ∷ codes "adult animation"
    ∷ codes "adults only"
    ∷ codes "x"
    ∷ []

-- Whether a query that compares lower-case names leaves a genre out.
unfoldable pub is_sql_blocked : Text → Bool
unfolding to_ascii_lowercase member
is_sql_blocked name = member sql_genres (to_ascii_lowercase name)
