-- ===== src/Jackett/Hits.antt =====
-- backend/src/jackett.rs: a hit of the indexers, its categories and its link.
pub mod Laws
use peanut_butter.Prelude.{
  ℕ, ◌+◌, ◌%◌, ◌^◌, Bool, true, false, Option, none, some, List, [], ◌∷◌, ◌++◌, ◌&&◌, ◌||◌, ◌==◌,
  if◌then◌else◌, any, filter, length, is_empty, is_some, unwrap_or, ltb, leb, leb_ℤ, ltb_ℤ, eqb_ℤ,
  ℤ, pos, negsuc, pos_part, neg_part, ◌>>=◌, ◌+ℤ◌, ◌-◌,
}
use peanut_butter.Text.{
  Text, codes, text_eq, contains, starts_with, split, trim, to_ascii_lowercase, parse_i32,
}

-- An absent field of the answer is `none`, or the empty list.
pub record JackettHit : Type 0 where
  pub title : Text
  pub magnet_uri : Option Text
  pub link : Option Text
  pub seeders : Option ℤ
  pub peers : Option ℤ
  pub size : Option ℤ
  pub tracker : Option Text
  pub tracker_id : Option Text
  pub indexer : Option Text
  pub guid : Option Text
  pub category : List ℤ
  pub category_desc : Option Text
  pub id_matched : Bool

unfoldable pub kind_categories : Text → Text
unfolding text_eq
kind_categories kind =
    if text_eq kind (codes "movie")
    then codes "2000,2010,2020,2030,2040,2045,2060,2070"
    else if text_eq kind (codes "series")
    then codes "5000,5020,5030,5040,5045,5050,5060,5070,5080"
    else if text_eq kind (codes "anime")
    then codes "5070,5000,5040,5045,5080"
    else []

unfoldable pub parse_all : List Text → List ℤ
unfolding trim parse_i32
parse_all [] = []
parse_all (s ∷ parts) =
    let rest = parse_all parts in elim (parse_i32 (trim s)) [ none ↦ rest | some c ↦ c ∷ rest ]

unfoldable pub kind_category_ids : Text → List ℤ
unfolding kind_categories split parse_all
kind_category_ids kind = parse_all (split (kind_categories kind) (λ c. c == b','))

unfoldable pub is_xxx_category : ℤ → Bool
is_xxx_category c = leb_ℤ (pos 6000) c && ltb_ℤ c (pos 7000)

-- `c % 1000 == 0`, for either sign.
unfoldable pub is_parent : ℤ → Bool
is_parent c = (pos_part c + neg_part c) % 1000 == 0

-- One round of the loop: a parent covers its children, and a child implies its parent.
unfoldable pub is_related : ℤ → ℤ → Bool
unfolding is_parent ◌+ℤ◌
is_related c a =
    is_parent a && ltb_ℤ a c && ltb_ℤ c (a +ℤ pos 1000)
    || is_parent c && ltb_ℤ c a && ltb_ℤ a (c +ℤ pos 1000)

unfoldable pub category_matches_allowed : ℤ → List ℤ → Bool
unfolding is_related
category_matches_allowed c allowed = any (eqb_ℤ c) allowed || any (is_related c) allowed

-- Whether the description of the categories says adult.
unfoldable pub says_adult : Option Text → Bool
unfolding to_ascii_lowercase contains
says_adult none = false
says_adult (some desc) =
    let d = to_ascii_lowercase desc in
    contains d (codes "xxx") || contains d (codes "adult") || contains d (codes "porn")

unfoldable pub hit_category_allowed : JackettHit → Text → Bool
unfolding is_xxx_category says_adult kind_category_ids category_matches_allowed
hit_category_allowed hit kind =
    if any is_xxx_category hit.category
    then false
    else if says_adult hit.category_desc
    then false
    else if is_empty hit.category
    then true
    else any (λ c. category_matches_allowed c (kind_category_ids kind)) hit.category

-- The first of the two links that can be used.
unfoldable pub usable_link : Option Text → Option Text
unfolding trim to_ascii_lowercase starts_with
usable_link none = none
usable_link (some raw) =
    let trimmed = trim raw in
    let lower = to_ascii_lowercase trimmed in
    if is_empty trimmed
    then none
    else if starts_with lower (codes "magnet:")
        || starts_with lower (codes "http://")
        || starts_with lower (codes "https://")
    then some trimmed
    else none

unfoldable pub torrent_locator : JackettHit → Option Text
unfolding usable_link
torrent_locator hit = elim (usable_link hit.magnet_uri) [
  | some link ↦ some link
  | none ↦ usable_link hit.link
]

unfoldable pub healthy_hit_count : List JackettHit → ℕ
unfolding torrent_locator
healthy_hit_count hits = length (
    filter (λ hit. leb_ℤ (pos 3) (unwrap_or hit.seeders (pos 0)) && is_some (torrent_locator hit))
      hits)

unfoldable pub magnet_hit_count : List JackettHit → ℕ
unfolding torrent_locator
magnet_hit_count hits = length (filter (λ hit. is_some (torrent_locator hit)) hits)
