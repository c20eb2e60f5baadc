-- ===== src/Sources/Tests.antt =====
-- Runs of the definitions on small inputs, and the theorems at inputs that meet their hypotheses.
use mathlib.Core.Option
use peanut_butter.Prelude.{
  ℕ, ◌≡◌, refl, true, some, ℤ, List, [], ◌∷◌, ◌++◌, pos, arith, map, filter, All, ◌↔◌, all, flatten,
  is_some, Option-cases, inl, inr,
}
use peanut_butter.Text.{Text, codes, split_once}
use peanut_butter.Sources.Types.{StreamSource, is_http}
use peanut_butter.Sources.Hex.{IsInfoHash}
use peanut_butter.Sources.Base32.{base32_digit}
use peanut_butter.Sources.Base32.Exact.{IsBase32, Spells, base32_to_hex-Spells}
use peanut_butter.Sources.Key.{dedup_key, normalize_hash, info_hash_of}
use peanut_butter.Sources.Key.Laws.{identity, dedup_key_iff, normalize_hash_canonical}
use peanut_butter.Sources.Magnet.{is_magnet, params, is_added, merge_magnets}
use peanut_butter.Sources.Magnet.Laws.{info_hash_of-merge_magnets, params-merge_magnets}
use peanut_butter.Sources.Merge.{merge, absorb}
use peanut_butter.Sources.Merge.Groups.{Merges, merge-Merges, combine}
use peanut_butter.Sources.Merge.Covers.{Covers, combine-Covers}
use peanut_butter.Sources.Gather.{Completion, answered, refused, elapsed}
use peanut_butter.Sources.Gather.Laws.{Accounts, gather-Accounts}
use peanut_butter.Sources.Links.{check_links, max_link_checks, collapse_mirrors, is_untouched}
use peanut_butter.Sources.Links.Laws.{keep_unrefused, check_links-keep_unrefused}
use peanut_butter.Sources.Links.Mirrors.{Apart, HasCopy, mirrors, collapse_mirrors_lem}
use peanut_butter.Jackett.Health.{health_for, calculate_rating}
use peanut_butter.Rank.Resolution.{detect_resolution}

abbrev hash : Text
hash = codes "0123456789abcdef0123456789abcdef01234567"

abbrev torrent : Text → Text → ℕ → StreamSource
torrent provider name seeders = record {
  id = hash;
  title = name;
  magnet = codes "magnet:?xt=urn:btih:" ++ hash ++ codes "&tr=" ++ provider;
  seeders = pos seeders;
  peers = pos 0;
  rating = pos 3;
  health = codes "decent";
  size = codes "?";
  tracker = provider;
  indexer = provider;
  language = codes "unknown";
  kind = codes "torrent";
  url = [];
  headers = [];
  score = pos 0;
  providers = provider ∷ [];
  size_bytes = 0;
}

abbrev first : StreamSource
first = torrent (codes "a") (codes "Troy.2004.BluRay") 3

abbrev second : StreamSource
second = torrent (codes "b") (codes "Troy.2004.1080p.BluRay") 14

abbrev direct : StreamSource
direct = record (torrent (codes "c") (codes "Troy 2004") 0) {
  kind = codes "http";
  url = codes "https://c/troy";
  size_bytes = 7;
}

-- One torrent from two sources is one row, under the better title and the larger swarm.
one_row :
    Option.map
      (map {B = Text × ℤ × List Text} (λ s. (s.title, s.seeders, s.providers)))
      (merge ((first ∷ []) ∷ (second ∷ []) ∷ []))
    ≡ some ((codes "Troy.2004.1080p.BluRay", pos 14, codes "a" ∷ codes "b" ∷ []) ∷ [])
unfolding merge dedup_key absorb detect_resolution merge_magnets is_http health_for calculate_rating
    flatten
one_row = refl

merge-Merges_example :
    (out : List StreamSource) × Merges ((first ∷ direct ∷ []) ∷ (second ∷ []) ∷ []) out
merge-Merges_example = merge-Merges ((first ∷ direct ∷ []) ∷ (second ∷ []) ∷ [])

pair_combined : combine (first ∷ second ∷ []) ≡ some (absorb first second)
unfolding combine
pair_combined = refl

combine-Covers_example : All (Covers (absorb first second)) (first ∷ second ∷ [])
combine-Covers_example = combine-Covers (first ∷ second ∷ []) (absorb first second) pair_combined

abbrev labels : List Text
labels = codes "Slow" ∷ codes "Fast" ∷ codes "Broken" ∷ []

abbrev run : List Completion
run =
    record { at = 1; provider = 2; answer = refused (codes "HTTP 500") }
    ∷ record { at = 2; provider = 1; answer = answered (first ∷ second ∷ []) }
    ∷ record { at = 8; provider = 0; answer = elapsed }
    ∷ []

gather-Accounts_example :
    (used : List Completion) × (rest : List Completion) × Accounts labels 10 run used rest
gather-Accounts_example = gather-Accounts labels 10 run (omega arith)

abbrev b32 : Text
b32 = codes "4oymiquy7qobjgx36tejs35zeqt24qpe"

all-IsBase32 : (s : Text) → all (λ c. is_some (base32_digit c)) s ≡ true → All IsBase32 s
all-IsBase32 [] h = tt
all-IsBase32 (c ∷ s) h = elim (Option-cases (base32_digit c)) [
  | inl e ↦ ground arith
  | inr (v, e) ↦ ((v, e), all-IsBase32 s (ground arith))
]

b32_digits : all (λ c. is_some (base32_digit c)) b32 ≡ true
unfolding base32_digit
b32_digits = refl

b32-IsBase32 : All IsBase32 b32
b32-IsBase32 = all-IsBase32 b32 b32_digits

base32_to_hex-Spells_example : (h : Text) × Spells b32 h
base32_to_hex-Spells_example = base32_to_hex-Spells b32 refl b32-IsBase32

dedup_key_iff_example : (dedup_key first ≡ dedup_key second) ↔ (identity first ≡ identity second)
dedup_key_iff_example = dedup_key_iff first second

normalized : normalize_hash (codes " 0123456789ABCDEF0123456789ABCDEF01234567 ") ≡ some hash
unfolding normalize_hash
normalized = refl

normalize_hash_canonical_example : IsInfoHash hash × (normalize_hash hash ≡ some hash)
normalize_hash_canonical_example =
    normalize_hash_canonical (codes " 0123456789ABCDEF0123456789ABCDEF01234567 ") hash normalized

first_is_magnet : is_magnet first.magnet ≡ true
unfolding is_magnet
first_is_magnet = refl

second_is_magnet : is_magnet second.magnet ≡ true
unfolding is_magnet
second_is_magnet = refl

first_hash : info_hash_of first.magnet ≡ some hash
unfolding info_hash_of
first_hash = refl

info_hash_of-merge_magnets_example :
    info_hash_of (merge_magnets first.magnet second.magnet) ≡ some hash
info_hash_of-merge_magnets_example =
    info_hash_of-merge_magnets first.magnet second.magnet hash first_is_magnet first_hash

first_query :
    split_once first.magnet b'?'
    ≡ some (codes "magnet:", codes "xt=urn:btih:" ++ hash ++ codes "&tr=a")
unfolding split_once
first_query = refl

params-merge_magnets_example :
    params (merge_magnets first.magnet second.magnet)
    ≡ params first.magnet ++ filter (is_added (params first.magnet)) (params second.magnet)
params-merge_magnets_example =
    params-merge_magnets first.magnet second.magnet (codes "magnet:")
      (codes "xt=urn:btih:" ++ hash ++ codes "&tr=a") first_is_magnet second_is_magnet first_query

check_links-keep_unrefused_example :
    check_links (λ s. some 403) (first ∷ direct ∷ [])
    ≡ keep_unrefused (λ s. some 403) max_link_checks (first ∷ direct ∷ [])
check_links-keep_unrefused_example =
    check_links-keep_unrefused (λ s. some 403) (first ∷ direct ∷ [])

abbrev mirrored : List StreamSource
mirrored = first ∷ direct ∷ direct ∷ []

collapse_mirrors_lem_example :
    (filter is_untouched (collapse_mirrors mirrored) ≡ filter is_untouched mirrored)
    × Apart [] (collapse_mirrors mirrored)
    × HasCopy (mirrors (collapse_mirrors mirrored)) mirrored
collapse_mirrors_lem_example = collapse_mirrors_lem mirrored
