-- ===== src/Sources/Magnet.antt =====
-- backend/src/sources/mod.rs: `merge_magnets`.
pub mod Laws
use peanut_butter.Prelude.{
  ℕ, Bool, Option, none, some, List, [], ◌∷◌, ◌++◌, ◌&&◌, ◌||◌, not, ◌==◌, if◌then◌else◌, any,
}
use peanut_butter.Text.{Text, codes, split, split_once, starts_with, to_ascii_lowercase, member}

unfoldable pub is_magnet : Text → Bool
unfolding starts_with to_ascii_lowercase
is_magnet m = starts_with (to_ascii_lowercase m) (codes "magnet:")

-- The parts of the query.
unfoldable pub params : Text → List Text
unfolding split_once split
params m = elim (split_once m b'?') [ none ↦ [] | some (_, q) ↦ split q (λ c. c == b'&') ]

-- Whether a parameter of the second magnet is taken over.
unfoldable pub is_added : List Text → Text → Bool
unfolding starts_with member
is_added have p =
    starts_with p (codes "tr=") && not (member have p)
    || starts_with p (codes "so=") && not (any (λ q. starts_with q (codes "so=")) have)

unfoldable pub add_params : List Text → List Text → Text → Text
unfolding is_added
add_params have [] out = out
add_params have (p ∷ ps) out =
    add_params have ps (if is_added have p then out ++ (b'&' ∷ p) else out)

unfoldable pub merge_magnets : Text → Text → Text
unfolding is_magnet params add_params
merge_magnets a b =
    if not (is_magnet b)
    then a
    else if not (is_magnet a)
    then b
    else add_params (params a) (params b) a
