-- ===== src/Jackett/Tests.antt =====
-- Runs of the rules of release names, and their theorems at inputs that meet their hypotheses.
use peanut_butter.Prelude.{
  pos, true, All, ◌⊎◌, ◌↔◌, IsIn, is_empty, any, length, ◌≤◌, ℕ, ◌≡◌, refl, ◌*◌, none, some, [],
  ◌∷◌, false,
}
use peanut_butter.Text.{Text, is_ascii_alphanumeric, trim, to_ascii_lowercase, codes}
use peanut_butter.Outside.Samples.{plain, whole, ascii}
use peanut_butter.Jackett.Sizes.{size_plausible, size_in_bounds, says_pack, gb}
use peanut_butter.Jackett.Languages.{language_codes, language_matches, primary_language_term}
use peanut_butter.Jackett.Tokens.{source_quality_score}
use peanut_butter.Jackett.Hits.{JackettHit, hit_category_allowed, is_xxx_category, says_adult}
use peanut_butter.Jackett.Hits.Laws.{hit_category_allowed_lem, in_kind}
use peanut_butter.Jackett.Screening.{transform_results}
use peanut_butter.Jackett.Screening.Laws.{transform_results_lem, Made, speaks}
use peanut_butter.Jackett.Target.{SearchTarget, matches, title_tokens, candidates}
use peanut_butter.Jackett.Target.Prefix.{strip_release_prefix}
use peanut_butter.Jackett.Target.Laws.{strip_release_prefix_lem, Ended}
use peanut_butter.Jackett.Target.Matching.{IsWanted, matches_lem}
use peanut_butter.Jackett.Target.Candidates.{IsName}
use peanut_butter.Rank.Order.{max_results}
use peanut_butter.Jackett.Languages.Laws.{Distinct, language_codes-Distinct}

season_by_number : size_plausible plain (40 * gb) (codes "series") (codes "Show S01 1080p") ≡ false
unfolding size_plausible
season_by_number = refl

pack_of_40_gb :
    size_in_bounds (codes "series") (says_pack (codes "Show S01 1080p")) (40 * gb) ≡ false
unfolding size_in_bounds says_pack
pack_of_40_gb = refl

two_languages :
    language_codes (codes "Show.S01.German.English.1080p") ≡ codes "de" ∷ codes "en" ∷ []
unfolding language_codes
two_languages = refl

second_term : primary_language_term (codes "en, ja") ≡ some (codes "Japanese")
unfolding primary_language_term
second_term = refl

foreign_only : language_matches (codes "de" ∷ []) (codes "en,hi") ≡ false
unfolding language_matches
foreign_only = refl

language_codes-Distinct_example : Distinct (language_codes (codes "Nordic Swedish MULTi"))
language_codes-Distinct_example = language_codes-Distinct (codes "Nordic Swedish MULTi")

stripped : strip_release_prefix (codes "[Group] www.Site.to - Dune 2021") ≡ codes "Dune 2021"
unfolding strip_release_prefix
stripped = refl

strip_release_prefix_lem_example :
    Ended (trim (codes "[Group] Dune")) (strip_release_prefix (codes "[Group] Dune"))
strip_release_prefix_lem_example = strip_release_prefix_lem (codes "[Group] Dune")

abbrev dune : SearchTarget
dune = record { title = codes "Dune"; alt_titles = []; year = some (pos 2021); imdb_id = none }

dune_part_two : matches ascii dune (codes "Dune Part Two 2024 1080p") (codes "movie") ≡ false
unfolding matches is_ascii_alphanumeric
dune_part_two = refl

abbrev dune_release : Text
dune_release = codes "[Group] Dune.2021.1080p"

matches_lem_example :
    ((matches ascii dune dune_release (codes "movie") ≡ true)
      ↔ IsWanted ascii dune
          (codes "movie")
          (title_tokens ascii (strip_release_prefix dune_release)))
    × All (IsName ascii (dune.title ∷ dune.alt_titles)) (candidates ascii dune)
    × ((is_empty (title_tokens ascii dune.title) ≡ true)
        ⊎ IsIn (title_tokens ascii dune.title, false) (candidates ascii dune))
matches_lem_example = matches_lem ascii dune (codes "movie") dune_release

dune_taken : matches ascii dune dune_release (codes "movie") ≡ true
unfolding matches is_ascii_alphanumeric
dune_taken = refl

-- A name that is also the short form of the title keeps the short form's wish for the exact year.
abbrev part_two : SearchTarget
part_two = record {
  title = codes "Dune: Part Two";
  alt_titles = codes "Dune" ∷ [];
  year = some (pos 2024);
  imdb_id = none;
}

alt_title_lost : matches ascii part_two (codes "Dune 1080p") (codes "movie") ≡ false
unfolding matches is_ascii_alphanumeric
alt_title_lost = refl

-- A film that says so in its name and its category.
abbrev dune_hit : JackettHit
dune_hit = record {
  title = codes "Dune.2021.1080p.BluRay";
  magnet_uri = some (codes "magnet:?xt=urn:btih:ba7816bf8f01cfea414140de5dae2223b00361a3");
  link = none;
  seeders = some (pos 12);
  peers = some (pos 14);
  size = some (pos 4000000000);
  tracker = none;
  tracker_id = none;
  indexer = none;
  guid = none;
  category = pos 2000 ∷ pos 2040 ∷ [];
  category_desc = none;
  id_matched = false;
}

hit_category_allowed_lem_example :
    All (λ c. is_xxx_category c ≡ false) dune_hit.category
    × (says_adult dune_hit.category_desc ≡ false)
    × ((is_empty dune_hit.category ≡ true)
        ⊎ (any (in_kind (codes "movie")) dune_hit.category ≡ true))
unfolding hit_category_allowed
hit_category_allowed_lem_example = hit_category_allowed_lem dune_hit (codes "movie") refl

abbrev print_size : ℕ → ℕ → Text
print_size d x = codes "1 GB"

one_result :
    length (
      transform_results plain whole print_size
        (dune_hit ∷ [])
        (codes "1080p")
        (codes "all")
        (codes "movie"))
    ≡ 1
unfolding transform_results source_quality_score
one_result = refl

transform_results_lem_example :
    All
      (λ src.
        Made plain whole print_size (dune_hit ∷ []) (codes "movie") src
        × (speaks (to_ascii_lowercase (trim (codes "all"))) src ≡ true))
      (transform_results plain whole print_size
        (dune_hit ∷ [])
        (codes "1080p")
        (codes "all")
        (codes "movie"))
    × (length (
          transform_results plain whole print_size
            (dune_hit ∷ [])
            (codes "1080p")
            (codes "all")
            (codes "movie"))
        ≤ max_results)
transform_results_lem_example =
    transform_results_lem plain whole print_size (dune_hit ∷ []) (codes "1080p") (codes "all")
      (codes "movie")
