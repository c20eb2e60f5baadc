-- ===== src/Cache/Tests.antt =====
-- Runs of the classification, and its theorem at a request.
use peanut_butter.Prelude.{◌≡◌, refl, if◌then◌else◌, Option, none, some, List, [], ◌∷◌, ◌⊎◌, All}
use peanut_butter.Text.{Text, codes, text_eq}
use peanut_butter.Outside.Graphql.{OperationType, field, Operation}
use peanut_butter.Cache.{RequestKind, classify}
use peanut_butter.Cache.Laws.{IsReading, IsHarmless, classify_lem}

-- A request that sets a title as watched and deletes it.
abbrev mixed_request : List Operation
mixed_request =
    record {
      ty = OperationType.mutation;
      items = field (codes "setWatched") ∷ field (codes "deleteTitle") ∷ [];
    }
    ∷ []

-- A parser that knows one text.
abbrev parse_mixed : Text → Option (List Operation)
parse_mixed t = if text_eq t (codes "mixed") then some mixed_request else none

classify_lem_example :
    (classify parse_mixed (codes "mixed") ≡ RequestKind.global_mutation
      × ¬ (All IsHarmless mixed_request))
    ⊎ (classify parse_mixed (codes "mixed") ≡ RequestKind.personal_mutation
        × All IsHarmless mixed_request
        × ¬ (All IsReading mixed_request))
    ⊎ (classify parse_mixed (codes "mixed") ≡ RequestKind.query × All IsReading mixed_request)
unfolding text_eq
classify_lem_example = classify_lem parse_mixed (codes "mixed") mixed_request refl

one_spoils_all : classify parse_mixed (codes "mixed") ≡ RequestKind.global_mutation
unfolding classify
one_spoils_all = refl

unparseable : classify parse_mixed (codes "not graphql") ≡ RequestKind.global_mutation
unfolding classify
unparseable = refl
