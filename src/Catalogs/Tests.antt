-- ===== src/Catalogs/Tests.antt =====
-- Runs of the lists of add-ons, and the theorem of the mixed row at two short lists.
use peanut_butter.Prelude.{
  ℕ, ◌≡◌, ◌≤◌, refl, true, some, none, List, [], ◌∷◌, ◌⊎◌, All, IsIn, map, length, pos,
}
use peanut_butter.Text.{codes}
use peanut_butter.Catalogs.{has, round_robin, service_id, imdb_ids}
use peanut_butter.Catalogs.Mix.{mix}
use peanut_butter.Catalogs.Mix.Seen.{DistinctIds}
use peanut_butter.Catalogs.Mix.Laws.{mix_lem}

abbrev trending : List ℕ
trending = 1 ∷ 2 ∷ 3 ∷ 4 ∷ 5 ∷ []

abbrev addon : List ℕ
addon = 2 ∷ 101 ∷ 102 ∷ []

mixed : mix (λ n. n) trending addon 6 ≡ 1 ∷ 2 ∷ 101 ∷ 3 ∷ 4 ∷ 102 ∷ []
unfolding mix
mixed = refl

mix_lem_example :
    DistinctIds (map (λ n. n) (mix (λ n. n) trending addon 6))
    × All (λ u. IsIn u trending ⊎ IsIn u addon) (mix (λ n. n) trending addon 6)
    × (length (mix (λ n. n) trending addon 6) ≤ 6)
    × ((length (mix (λ n. n) trending addon 6) ≡ 6)
        ⊎ ((u : ℕ)
            → IsIn u trending ⊎ IsIn u addon
            → has (map (λ n. n) (mix (λ n. n) trending addon 6)) u ≡ true))
mix_lem_example = mix_lem (λ n. n) trending addon 6

hbo_max : service_id (codes "HBO Max") ≡ codes "hbo"
unfolding service_id
hbo_max = refl

two_services :
    round_robin (
      record { title = 1; service = codes "N"; rank = pos 1 }
      ∷ record { title = 2; service = codes "N"; rank = pos 2 }
      ∷ record { title = 4; service = codes "H"; rank = pos 1 }
      ∷ record { title = 1; service = codes "H"; rank = pos 2 }
      ∷ [])
    ≡ 1 ∷ 4 ∷ 2 ∷ []
unfolding round_robin
two_services = refl

once :
    imdb_ids (
      record { id = some (codes "tt23"); imdb_id = none }
      ∷ record { id = some (codes "tmdb:5"); imdb_id = some (codes " tt23") }
      ∷ [])
    ≡ codes "tt23" ∷ []
unfolding imdb_ids
once = refl
