-- ===== src/Cache.antt =====
-- backend/src/cache.rs: which cached answers a request makes stale.
pub mod Laws
mod Tests
use peanut_butter.Prelude.{
  Bool, true, false, if◌then◌else◌, Option, none, some, List, [], ◌∷◌, all, ◌>>=◌,
}
use peanut_butter.Text.{Text, codes, member}
use peanut_butter.Outside.Graphql.{
  OperationType, Selection, field, fragment_spread, inline_fragment, Operation,
}

abbrev pub personal_mutations : List Text
personal_mutations =
    codes "updateProgress"
    ∷ codes "streamResume"
    ∷ codes "setFavorite"
    ∷ codes "setWatched"
    ∷ codes "startStream"
    ∷ codes "stopStream"
    ∷ []

pub data RequestKind : Type 0 where
  query : RequestKind
  personal_mutation : RequestKind
  global_mutation : RequestKind

unfoldable pub is_mutation : OperationType → Bool
is_mutation OperationType.query = false
is_mutation OperationType.mutation = true
is_mutation OperationType.subscription = false

unfoldable pub is_personal : Selection → Bool
unfolding member
is_personal (field name) = member personal_mutations name
is_personal fragment_spread = false
is_personal inline_fragment = false

-- The loop over the operations: whether a mutation was seen, or nothing if it returns early.
unfoldable pub classify_loop : Bool → List Operation → Option Bool
unfolding is_mutation is_personal
classify_loop saw_mutation [] = some saw_mutation
classify_loop saw_mutation (op ∷ ops) =
    let unseen = classify_loop saw_mutation ops in
    let seen = classify_loop true ops in
    if is_mutation op.ty then (if all is_personal op.items then seen else none) else unseen

unfoldable pub kind_of : Option Bool → RequestKind
kind_of none = RequestKind.global_mutation
kind_of (some true) = RequestKind.personal_mutation
kind_of (some false) = RequestKind.query

unfoldable pub classify : (Text → Option (List Operation)) → Text → RequestKind
unfolding classify_loop kind_of
classify parse_query text = kind_of (do ops ← parse_query text; classify_loop false ops)
