-- ===== src/Media/Range.antt =====
-- backend/src/media/serve.rs, `parse_range`: the byte range that a player asks for.
pub mod Laws
use peanut_butter.Prelude.{
  ℕ, ◌-◌, Option, none, some, List, [], ◌∷◌, if◌then◌else◌, ◌==◌, ◌>>=◌, leb, ltb, min, is_empty,
  ◌≡◌, refl,
}
use peanut_butter.Text.{Text, codes, strip_prefix, split, split_once, trim, parse_u64}

-- `Iterator::next`.
unfoldable pub first_of {ℓ} : {A : Type ℓ} → List A → Option A
first_of [] = none
first_of (x ∷ xs) = some x

-- `-n`: the last n bytes. `saturating_sub` is the subtraction that stops at 0.
unfoldable pub suffix_range : ℕ → ℕ → Option (ℕ × ℕ)
suffix_range suffix len = if suffix == 0 then none else some (len - suffix, len - 1)

-- The last byte that is asked for.
unfoldable pub end_of : Text → ℕ → Option ℕ
unfolding parse_u64
end_of end_s len =
    if is_empty end_s then some (len - 1) else (do end ← parse_u64 end_s; some (min end (len - 1)))

unfoldable pub bounded_range : ℕ → Text → ℕ → Option (ℕ × ℕ)
unfolding end_of
bounded_range start end_s len =
    if leb len start
    then none
    else (do end ← end_of end_s len; if ltb end start then none else some (start, end))

-- The two parts around the dash.
unfoldable pub range_of : Text → Text → ℕ → Option (ℕ × ℕ)
unfolding parse_u64 suffix_range bounded_range
range_of start_s end_s len =
    if is_empty start_s
    then (do suffix ← parse_u64 end_s; suffix_range suffix len)
    else (do start ← parse_u64 start_s; bounded_range start end_s len)

unfoldable pub parse_range : Text → ℕ → Option (ℕ × ℕ)
unfolding strip_prefix split split_once trim first_of range_of
parse_range header len = do
  ranges ← strip_prefix header (codes "bytes=")
  first ← first_of (split ranges (λ c. c == b','))
  (start_s, end_s) ← split_once (trim first) b'-'
  range_of start_s end_s len

first_two : parse_range (codes "bytes=0-1") 100 ≡ some (0, 1)
unfolding parse_range
first_two = refl

from_ten : parse_range (codes "bytes=10-") 100 ≡ some (10, 99)
unfolding parse_range
from_ten = refl

last_ten : parse_range (codes "bytes=-10") 100 ≡ some (90, 99)
unfolding parse_range
last_ten = refl

past_the_end : parse_range (codes "bytes=100-101") 100 ≡ none
unfolding parse_range
past_the_end = refl
