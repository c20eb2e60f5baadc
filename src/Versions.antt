-- ===== src/Versions.antt =====
-- backend/src/server_update.rs: whether a release is newer than the running one.
mod Tests
pub mod Laws
use peanut_butter.Prelude.{
  ℕ, Bool, true, false, Option, none, some, List, [], ◌∷◌, ◌&&◌, ◌||◌, ◌==◌, if◌then◌else◌, ◌>>=◌,
  ltb, map, drop_while, unwrap_or,
}
use peanut_butter.Text.{Text, trim, split, split_once, parse_u64}

pub record Version : Type 0 where
  pub major : ℕ
  pub minor : ℕ
  pub patch : ℕ
  pub is_prerelease : Bool

-- `parts.next().flatten()`, and what is left.
unfoldable pub next_part : List (Option ℕ) → Option ℕ × List (Option ℕ)
next_part [] = (none, [])
next_part (p ∷ parts) = (p, parts)

-- What stands before the first dash, and whether there is one.
unfoldable pub core_of : Text → Text × Bool
unfolding split_once
core_of v = elim (split_once v b'-') [ some (c, _) ↦ (c, true) | none ↦ (v, false) ]

unfoldable pub version_of : Text → Bool → Option Version
unfolding split parse_u64 next_part
version_of core pre = do
  let (first, rest) = next_part (map parse_u64 (split core (λ c. c == b'.')))
  let (second, rest') = next_part rest
  let (third, _) = next_part rest'
  major ← first
  some (record {
    major = major;
    minor = unwrap_or second 0;
    patch = unwrap_or third 0;
    is_prerelease = pre;
  })

unfoldable pub parse_version : Text → Option Version
unfolding trim core_of version_of
parse_version raw =
    let (core, pre) = core_of (drop_while (λ c. c == b'v') (trim raw)) in version_of core pre

-- `!p` as a number, in the order of `bool`.
abbrev pub finality : Version → ℕ
finality v = if v.is_prerelease then 0 else 1

-- The order of the tuples.
unfoldable pub is_above : Version → Version → Bool
is_above a b =
    ltb b.major a.major
    || a.major == b.major
      && (ltb b.minor a.minor
          || a.minor == b.minor
            && (ltb b.patch a.patch || a.patch == b.patch && ltb (finality b) (finality a)))

unfoldable pub newer_of : Option Version → Option Version → Bool
unfolding is_above
newer_of none b = false
newer_of (some a) none = false
newer_of (some a) (some b) = is_above a b

unfoldable pub is_newer : Text → Text → Bool
unfolding parse_version newer_of
is_newer latest running = newer_of (parse_version latest) (parse_version running)
