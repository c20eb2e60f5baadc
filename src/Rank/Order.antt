-- ===== src/Rank/Order.antt =====
-- backend/src/sources/rank.rs: `rank`.
pub mod Laws
pub mod Kept
pub mod Screening
use peanut_butter.Prelude.{
  ℕ, Bool, true, false, List, [], ◌∷◌, ◌&&◌, ◌||◌, not, if◌then◌else◌, leb_ℤ, map, filter, any,
  take, ℤ, pos, compare_ℤ, Ordering,
}
use peanut_butter.Text.{Text, codes, text_eq, utf8, compare_bytes}
use peanut_butter.Outside.Regexes.{Regexes}
use peanut_butter.Outside.Floats.{Floats}
use peanut_butter.Sources.Types.{StreamSource, is_http}
use peanut_butter.Sources.Magnet.{is_magnet}
use peanut_butter.Jackett.Tokens.{source_quality_score}
use peanut_butter.Rank.Score.{RankPrefs, score}

abbrev pub max_results : ℕ
max_results = 24

unfoldable pub openable : StreamSource → Bool
unfolding is_http is_magnet
openable s = is_http s || is_magnet s.magnet

abbrev pub is_alive : StreamSource → Bool
is_alive s = not (text_eq s.health (codes "dead"))

abbrev pub is_proper : StreamSource → Bool
is_proper s = leb_ℤ (pos 2) (source_quality_score s.title)

-- `if out.iter().any(p) { out.retain(p) }`.
unfoldable pub prefer : (StreamSource → Bool) → List StreamSource → List StreamSource
prefer p out = if any p out then filter p out else out

-- What nobody should be offered is left out.
unfoldable pub screen : List StreamSource → List StreamSource
unfolding openable prefer
screen out = prefer is_alive (filter is_proper (prefer openable out))

-- `Ordering::then`.
unfoldable pub and_then : Ordering → Ordering → Ordering
and_then Ordering.lt o = Ordering.lt
and_then Ordering.eq o = o
and_then Ordering.gt o = Ordering.gt

-- The order of the list: by score, seeders and peers, each descending, then by title.
unfoldable pub compare_sources : StreamSource → StreamSource → Ordering
unfolding and_then compare_bytes utf8
compare_sources a b =
    and_then
      (and_then (and_then (compare_ℤ b.score a.score) (compare_ℤ b.seeders a.seeders))
        (compare_ℤ b.peers a.peers))
      (compare_bytes (utf8 a.title) (utf8 b.title))

-- Whether `a` may stand in front of `b`.
unfoldable pub in_order : StreamSource → StreamSource → Bool
unfolding compare_sources
in_order a b = elim (compare_sources a b) [ Ordering.gt ↦ false | _ ↦ true ]

unfoldable pub insert : StreamSource → List StreamSource → List StreamSource
unfolding in_order
insert a [] = a ∷ []
insert a (b ∷ out) = let rest = insert a out in if in_order a b then a ∷ b ∷ out else b ∷ rest

-- `sort_by` is stable, so that its result is that of the insertion sort.
unfoldable pub sort : List StreamSource → List StreamSource
unfolding insert
sort [] = []
sort (a ∷ out) = insert a (sort out)

module _ (fl : Floats) (re : Regexes) where
  unfoldable pub scored : RankPrefs → StreamSource → StreamSource
  scored prefs s = record s { score = score fl re s prefs }

  unfoldable pub rank : List StreamSource → RankPrefs → List StreamSource
  unfolding screen scored sort
  rank out prefs = take max_results (sort (map (scored prefs) (screen out)))
