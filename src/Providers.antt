-- ===== src/Providers.antt =====
-- backend/src/providers.rs: the descriptions that add-ons give their streams.
pub mod Laws
mod Tests
use peanut_butter.Prelude.{
  ℕ, zero, suc, Bool, true, false, Option, none, some, List, [], ◌∷◌, ◌==◌, ◌&&◌, ◌||◌, ◌>>=◌,
  if◌then◌else◌, not, is_empty, is_some, leb, take, take_while, length,
}
use peanut_butter.Text.{
  Text, codes, starts_with, trim, trim_start, strip_prefix, split_once, after_first, is_ascii_digit,
  parse_u64,
}
use peanut_butter.Outside.Unicode.{Unicode}

-- The inside of a leading group, and what follows it.
unfoldable pub leading_group : Text → Option (Text × Text)
unfolding strip_prefix split_once trim trim_start
leading_group rest = do
  after ← strip_prefix rest (codes "[")
  (inner, behind) ← split_once after b']'
  some (trim inner, trim_start behind)

-- What stands before the first marker, or everything.
unfoldable pub until : Text → Text → Text
unfolding starts_with
until [] marker = []
until (c ∷ s) marker =
    let rest = until s marker in if starts_with (c ∷ s) marker then [] else c ∷ rest

-- The number behind the first marker and before the second one.
unfoldable pub number_after : Text → Text → Option ℕ
unfolding after_first until trim_start is_ascii_digit parse_u64
number_after text marker = do
  rest ← after_first text marker
  parse_u64 (take_while is_ascii_digit (trim_start (until rest marker)))

module _ (uni : Unicode) where
  -- Statistics start with a sign that is neither ASCII nor a letter.
  unfoldable pub is_stats : Text → Bool
  is_stats [] = false
  is_stats (c ∷ inner) = leb 128 c && not (uni.is_alphanumeric c)

  unfoldable pub tag_of : Option Text → Text → Option Text
  unfolding is_stats
  tag_of tag inner =
      if not (is_some tag) && not (is_empty inner) && not (is_stats inner)
      then some (take 30 inner)
      else tag

  -- The loop; each round makes the rest shorter.
  unfoldable pub tag_loop : ℕ → Option Text → Text → Option Text × Text
  unfolding leading_group tag_of
  tag_loop zero tag rest = (tag, rest)
  tag_loop (suc fuel) tag rest = elim (leading_group rest) [
    | none ↦ (tag, rest)
    | some (inner, behind) ↦ tag_loop fuel (tag_of tag inner) behind
  ]

  -- A line of nothing but tags is kept.
  unfoldable pub or_line : Text → Option Text × Text → Option Text × Text
  or_line line (tag, rest) = if is_empty rest then (none, line) else (tag, rest)

  unfoldable pub split_leading_tags : Text → Option Text × Text
  unfolding trim tag_loop or_line
  split_leading_tags line = let s = trim line in or_line s (tag_loop (length s) none s)
