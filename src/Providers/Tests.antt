-- ===== src/Providers/Tests.antt =====
-- Runs of the descriptions, and their theorem at a line with two groups.
use peanut_butter.Prelude.{◌≡◌, refl, none, some, ◌⊎◌, false, List, [], is_empty}
use peanut_butter.Text.{Text, codes, trim, is_ascii_alphanumeric}
use peanut_butter.Outside.Samples.{ascii}
use peanut_butter.Providers.{split_leading_tags, number_after}
use peanut_butter.Providers.Laws.{AllGroups, first_tag, split_leading_tags_lem}

two_groups :
    split_leading_tags ascii (codes "[💾 2 GB] [Host] Dune 2021")
    ≡ (some (codes "Host"), codes "Dune 2021")
unfolding split_leading_tags is_ascii_alphanumeric
two_groups = refl

split_leading_tags_lem_example :
    (inners : List Text) × (rest : Text) × AllGroups (trim (codes "[Host] Dune")) inners rest
    × (((is_empty rest ≡ false)
          × (split_leading_tags ascii (codes "[Host] Dune") ≡ (first_tag ascii inners, rest)))
        ⊎ ((rest ≡ [])
            × (split_leading_tags ascii (codes "[Host] Dune")
                ≡ (none, trim (codes "[Host] Dune")))))
split_leading_tags_lem_example = split_leading_tags_lem ascii (codes "[Host] Dune")

peers : number_after (codes "👤 12 💾 1 GB") (codes "👤") ≡ some 12
unfolding number_after
peers = refl
