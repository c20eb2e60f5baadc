-- ===== src/Jackett/Target/Prefix.antt =====
-- backend/src/jackett.rs, `strip_release_prefix`: tags of groups and sites in front of a name.
use peanut_butter.Prelude.{
  ℕ, zero, suc, Bool, some, none, [], ◌∷◌, ◌||◌, ◌==◌, if◌then◌else◌, length,
}
use peanut_butter.Text.{
  Text, codes, text_eq, starts_with, after_first, trim, trim_start, trim_start_matches,
  to_ascii_lowercase,
}

-- What follows the first occurrence, trimmed, if there is one.
unfoldable pub skip : Text → Text → Text
unfolding after_first trim_start
skip s mark = elim (after_first s mark) [ some r ↦ trim_start r | none ↦ s ]

unfoldable pub strip_block : Text → ℕ → ℕ → Text
unfolding starts_with skip
strip_block s open_mark close_mark =
    if starts_with s (open_mark ∷ []) then skip s (close_mark ∷ []) else s

unfoldable pub strip_site : Text → Text
unfolding starts_with to_ascii_lowercase skip
strip_site s = if starts_with (to_ascii_lowercase s) (codes "www.") then skip s (codes " - ") else s

unfoldable pub is_filler : ℕ → Bool
is_filler c = c == b'-' || c == b' ' || c == b'.' || c == b'_'

-- One round of the loop.
unfoldable pub strip_round : Text → Text
unfolding strip_block strip_site trim_start_matches is_filler
strip_round s =
    let s1 = strip_block s b'[' b']' in
    let s2 = strip_block s1 b'(' b')' in
    let s3 = strip_block s2 0x3010 0x3011 in trim_start_matches (strip_site s3) is_filler

unfoldable pub strip_loop : ℕ → Text → Text
unfolding strip_round text_eq
strip_loop zero s = s
strip_loop (suc fuel) s =
    let s' = strip_round s in let again = strip_loop fuel s' in if text_eq s' s then s' else again

-- Each round but the last makes the text shorter.
unfoldable pub strip_release_prefix : Text → Text
unfolding strip_loop trim
strip_release_prefix raw = let s = trim raw in strip_loop (length s) s
