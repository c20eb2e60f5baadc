-- ===== src/Sources/Merge.antt =====
-- backend/src/sources/mod.rs: `absorb` and `merge`. Indexing past the end, which would panic, is
-- `none`.
pub mod Places
pub mod Groups
pub mod Covers
use peanut_butter.Prelude.{
  ℕ, ◌+◌, ◌<◌, Bool, Option, none, some, List, [], ◌∷◌, ◌++◌, ◌&&◌, ◌||◌, not, ◌==◌, if◌then◌else◌,
  ltb, flatten, get_elem?, set, length, ltb_ℤ, max_ℤ, ◌>>=◌, is_empty, is_some,
}
use peanut_butter.Text.{Text, codes, text_eq, member}
use peanut_butter.Jackett.Health.{health_for, calculate_rating}
use peanut_butter.Rank.Resolution.{detect_resolution}
use peanut_butter.Sources.Types.{StreamSource, is_http}
use peanut_butter.Sources.Key.{dedup_key}
use peanut_butter.Sources.Magnet.{merge_magnets}

unfoldable pub add_providers : List Text → List Text → List Text
unfolding member
add_providers have [] = have
add_providers have (p ∷ ps) = add_providers (if member have p then have else have ++ p ∷ []) ps

abbrev pub is_known : StreamSource → Bool
is_known s = not (text_eq s.health (codes "unknown"))

-- The swarm that is reported: known over unknown, and the higher count.
unfoldable pub absorb_swarm : StreamSource → StreamSource → StreamSource
absorb_swarm best other =
    if is_known other && (not (is_known best) || ltb_ℤ best.seeders other.seeders)
    then record best {
      seeders = other.seeders;
      health = health_for other.seeders;
      rating = calculate_rating other.seeders;
      indexer = other.indexer;
      tracker = other.tracker;
    }
    else best

unfoldable pub absorb_size : StreamSource → StreamSource → StreamSource
absorb_size best other =
    if best.size_bytes == 0 && ltb 0 other.size_bytes
    then record best { size_bytes = other.size_bytes; size = other.size }
    else best

unfoldable pub absorb_language : StreamSource → StreamSource → StreamSource
absorb_language best other =
    if (is_empty best.language || text_eq best.language (codes "unknown"))
      && not (is_empty other.language)
    then record best { language = other.language }
    else best

unfoldable pub absorb_title : StreamSource → StreamSource → StreamSource
absorb_title best other =
    if not (is_some (detect_resolution best.title)) && is_some (detect_resolution other.title)
    then record best { title = other.title }
    else best

unfoldable pub absorb_magnet : StreamSource → StreamSource → StreamSource
absorb_magnet best other =
    if is_http best then best else record best { magnet = merge_magnets best.magnet other.magnet }

unfoldable pub absorb : StreamSource → StreamSource → StreamSource
unfolding add_providers absorb_swarm absorb_size absorb_language absorb_title absorb_magnet
absorb best other =
    let b1 = record best { providers = add_providers best.providers other.providers } in
    let b2 = absorb_swarm b1 other in
    let b3 = record b2 { peers = max_ℤ b2.peers other.peers } in
    let b4 = absorb_size b3 other in
    let b5 = absorb_language b4 other in
    let b6 = absorb_title b5 other in
    let b7 = record b6 { headers = if is_empty b6.headers then other.headers else b6.headers } in
    absorb_magnet b7 other

-- The `HashMap` from keys to places.
abbrev pub Places : Type 0
Places = List (Text × ℕ)

unfoldable pub lookup : Places → Text → Option ℕ
lookup [] key = none
lookup ((k, i) ∷ at) key = if text_eq k key then some i else lookup at key

pub record Merged : Type 0 where
  pub out : List StreamSource
  pub at : Places

-- One round of the loop.
unfoldable pub merge_one : Merged → StreamSource → Option Merged
unfolding lookup
merge_one m src =
    let key = dedup_key src in
    elim (lookup m.at key) [
      | some i ↦ (do
        best ← get_elem? m.out i
        some (record m { out = set m.out i (absorb best src) }))
      | none ↦ some (record { out = m.out ++ src ∷ []; at = (key, length m.out) ∷ m.at })
    ]

unfoldable pub merge_loop : Merged → List StreamSource → Option Merged
unfolding merge_one
merge_loop m [] = some m
merge_loop m (src ∷ rest) = do m' ← merge_one m src; merge_loop m' rest

unfoldable pub merge : List (List StreamSource) → Option (List StreamSource)
unfolding merge_loop
merge lists = do m ← merge_loop (record { out = []; at = [] }) (flatten lists); some m.out
