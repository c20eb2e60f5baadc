-- ===== src/Jackett/Screening.antt =====
-- backend/src/jackett.rs: the rules that a release must pass, and the results that are made of the
-- hits of the indexers and of torrents found elsewhere. The decimal print of a floating point
-- number is a parameter.
pub mod Laws
use peanut_butter.Prelude.{
  ℕ, suc, ◌+◌, ◌-◌, ◌*◌, ◌%◌, ◌^◌, Bool, true, false, Option, none, some, List, [], ◌∷◌, ◌++◌, ◌&&◌,
  ◌||◌, not, ◌==◌, if◌then◌else◌, any, all, filter, take, length, leb, ltb, leb_ℤ, is_empty,
  is_some, unwrap_or, ℤ, pos, negsuc, pos_part, map, ◌>>=◌, ltb_ℤ,
}
use peanut_butter.Text.{
  Text, codes, text_eq, trim, split, contains, utf8, len, to_ascii_lowercase, is_ascii_hexdigit,
  is_ascii_alphanumeric, member, decimal,
}
use peanut_butter.Outside.Regexes.{Regexes, is_match}
use peanut_butter.Outside.Floats.{Floats}
use peanut_butter.Sources.Types.{StreamSource}
use peanut_butter.Rank.Score.{is_separator}
use peanut_butter.Rank.Order.{rank}
use peanut_butter.Torrents.Link.{encode}
use peanut_butter.Jackett.Tokens.{
  padded, has_token, looks_like_sample, looks_like_cam, looks_like_sign_language,
  source_quality_score,
}
use peanut_butter.Jackett.Health.{calculate_rating, health_for}
use peanut_butter.Jackett.Languages.{language_codes, language_matches, stored_language}
use peanut_butter.Jackett.Sizes.{size_plausible}
use peanut_butter.Jackett.Hits.{JackettHit, torrent_locator, hit_category_allowed}

abbrev pub junk_words : List Text
junk_words =
    codes "xxx"
    ∷ codes "porn"
    ∷ codes "erotic"
    ∷ codes "adult"
    ∷ codes "hentai"
    ∷ codes "jav "
    ∷ codes " jave "
    ∷ codes "nsfw"
    ∷ codes "onlyfans"
    ∷ codes "pussy"
    ∷ codes "blowjob"
    ∷ codes "anal"
    ∷ codes "fetish"
    ∷ codes "brazzers"
    ∷ codes "realitykings"
    ∷ []

-- `src.language` without what says nothing, as the language rules read it.
unfoldable pub tags_of : Text → List Text
unfolding split is_separator trim text_eq
tags_of language =
    filter (λ part. not (is_empty part) && not (text_eq part (codes "unknown")))
      (map trim (split language is_separator))

-- `as i32` of an integer that is not negative keeps the low 32 bits.
unfoldable pub i32_of : ℕ → ℤ
i32_of n = let m = n % 2 ^ 32 in if ltb m (2 ^ 31) then pos m else negsuc (2 ^ 32 - 1 - m)

-- The fields of `StreamSource::default()`.
abbrev pub blank : StreamSource
blank = record {
  id = [];
  title = [];
  magnet = [];
  seeders = pos 0;
  peers = pos 0;
  rating = pos 0;
  health = [];
  size = [];
  tracker = [];
  indexer = [];
  language = [];
  kind = [];
  url = [];
  headers = [];
  score = pos 0;
  providers = [];
  size_bytes = 0;
}

unfoldable pub percent_encode : Text → Text
unfolding encode utf8
percent_encode s = encode (utf8 s)

-- `&tr=…` for each tracker.
unfoldable pub add_trackers : List Text → Text
unfolding percent_encode
add_trackers [] = []
add_trackers (tr ∷ trackers) = codes "&tr=" ++ (percent_encode tr ++ add_trackers trackers)

-- Whether a text is an info hash in either form.
unfoldable pub hash_ok : Text → Bool
unfolding utf8 len is_ascii_hexdigit is_ascii_alphanumeric
hash_ok hash =
    len hash == 40 && all is_ascii_hexdigit (utf8 hash)
    || len hash == 32 && all is_ascii_alphanumeric (utf8 hash)

module _ (re : Regexes) where
  unfoldable pub looks_like_junk_release : Text → Text → Bool
  unfolding padded has_token contains trim text_eq is_match
  looks_like_junk_release title kind =
      let h = padded title in
      let is_tv =
        is_match re
          (codes
            "(?i)(?:^|[^a-z0-9])(?:s\\d{1,2}e\\d{1,3}|\\d{1,2}x\\d{1,3}|season[ ._-]*\\d+)(?:[^0-9]|$)")
          title in
      let has_ep =
        is_match re
          (codes
            "(?i)(?:^|[^a-z0-9])(?:s\\d{1,2}e\\d{1,3}|\\d{1,2}x\\d{1,3}|season[ ._-]*\\d+|complete|pack)(?:[^0-9]|$)")
          title in
      let has_year = is_match re (codes "(?i)(?:^|[^a-z0-9])(?:19|20)\\d{2}(?:[^0-9]|$)") title in
      any (λ t. has_token h (trim t) || contains h t) junk_words
      || text_eq kind (codes "movie") && is_tv
      || text_eq kind (codes "series") && (has_year && not has_ep)

  -- The rules on the name alone.
  unfoldable pub name_ok : Text → Text → Bool
  unfolding looks_like_sample looks_like_cam padded looks_like_sign_language looks_like_junk_release
  name_ok title kind = not (
      looks_like_sample title
      || looks_like_cam (padded title)
      || looks_like_sign_language title
      || looks_like_junk_release title kind)

  -- The language that is stored, if it is wanted.
  unfoldable pub wanted_language : Text → Text → Option Text
  unfolding trim to_ascii_lowercase text_eq tags_of language_matches
  wanted_language language preferred_language =
      let preferred = to_ascii_lowercase (trim preferred_language) in
      if not (is_empty preferred)
        && not (text_eq preferred (codes "all"))
        && not (language_matches (tags_of language) preferred)
      then none
      else some language

  unfoldable pub screen_release : Text → ℕ → Text → Text → Option Text
  unfolding trim name_ok size_plausible stored_language language_codes wanted_language
  screen_release raw bytes kind preferred_language =
      let title = trim raw in
      if is_empty title || not (name_ok title kind)
      then none
      else if ltb 0 bytes && not (size_plausible re bytes kind title)
      then none
      else wanted_language (stored_language (language_codes title)) preferred_language

  module _ (fl : Floats) (print : ℕ → fl.F → Text) where
    open fl use {lit, of_ℕ, mul, div, lt}

    unfoldable pub format_size : ℕ → Text
    unfolding decimal
    format_size bytes =
        let kb = lit 1024 0 in
        let mb = mul kb (lit 1024 0) in
        let gb = mul mb (lit 1024 0) in
        let n = of_ℕ bytes in
        if not (lt n gb)
        then print 1 (div n gb) ++ codes " GB"
        else if not (lt n mb)
        then print 0 (div n mb) ++ codes " MB"
        else if not (lt n kb)
        then print 0 (div n kb) ++ codes " KB"
        else decimal bytes ++ codes " B"

    unfoldable pub external_source :
        (title info_hash : Text) (trackers : List Text) (seeders : Option ℤ) (bytes : ℕ)
        (source_label kind preferred_language : Text)
        → Option StreamSource
    unfolding trim to_ascii_lowercase hash_ok screen_release percent_encode add_trackers
        calculate_rating health_for format_size
    external_source raw info_hash trackers seeders bytes source_label kind preferred_language =
        let hash = to_ascii_lowercase (trim info_hash) in
        let title = trim raw in
        let known = pos (pos_part (unwrap_or seeders (pos 0))) in
        let rank_seeders = (if is_some seeders then known else pos 1) in
        let result = (do
          language ← screen_release title bytes kind preferred_language
          some (record blank {
            id = hash;
            title = title;
            magnet =
                codes "magnet:?xt=urn:btih:"
                ++ (hash
                    ++ (codes "&dn=" ++ (percent_encode title ++ add_trackers (take 12 trackers))));
            seeders = rank_seeders;
            peers = pos 0;
            rating = calculate_rating rank_seeders;
            health = if is_some seeders then health_for known else codes "unknown";
            size = if ltb 0 bytes then format_size bytes else codes "?";
            tracker = source_label;
            indexer = source_label;
            language = language;
            kind = codes "torrent";
            size_bytes = bytes;
          })) in
        if hash_ok hash then result else none

    -- The source that is made of a hit with this link.
    unfoldable pub source_of : JackettHit → Text → StreamSource
    unfolding i32_of calculate_rating health_for format_size stored_language language_codes
    source_of hit magnet =
        let bytes = pos_part (unwrap_or hit.size (pos 0)) in
        let seeders_raw = unwrap_or hit.seeders (negsuc 0) in
        let unknown = ltb_ℤ seeders_raw (pos 0) in
        let seeders = i32_of (pos_part seeders_raw) in
        let rank_seeders = (if unknown then pos 1 else seeders) in
        record blank {
          id = elim hit.guid [
            | none ↦ take 80 magnet
            | some s ↦ if is_empty (trim s) then take 80 magnet else s
          ];
          title = if is_empty (trim hit.title) then codes "Untitled" else hit.title;
          magnet = magnet;
          seeders = rank_seeders;
          peers = i32_of (pos_part (unwrap_or hit.peers (pos 0)));
          rating = calculate_rating rank_seeders;
          health = if unknown then codes "unknown" else health_for seeders;
          size = format_size bytes;
          tracker = elim hit.tracker [
            | some t ↦ t
            | none ↦ unwrap_or hit.tracker_id (codes "unknown")
          ];
          indexer = unwrap_or hit.indexer (codes "Jackett");
          language = stored_language (language_codes hit.title);
          kind = codes "torrent";
          size_bytes = bytes;
        }

    -- The rules of the first pass.
    unfoldable pub hit_ok : JackettHit → Text → Bool
    unfolding name_ok hit_category_allowed size_plausible
    hit_ok hit kind =
        name_ok hit.title kind
        && hit_category_allowed hit kind
        && size_plausible re (pos_part (unwrap_or hit.size (pos 0))) kind hit.title

    -- What a hit with this link, if it has one, adds.
    unfoldable pub add_source :
        Option Text → JackettHit → Text → List StreamSource → List StreamSource
    unfolding hit_ok source_of
    add_source none hit kind rest = rest
    add_source (some magnet) hit kind rest =
        if hit_ok hit kind then source_of hit magnet ∷ rest else rest

    unfoldable pub sources_of : List JackettHit → Text → List StreamSource
    unfolding torrent_locator add_source
    sources_of [] kind = []
    sources_of (hit ∷ hits) kind = add_source (torrent_locator hit) hit kind (sources_of hits kind)

    -- The rules on languages, where there is a preference.
    unfoldable pub keep_wanted : Text → List StreamSource → List StreamSource
    unfolding text_eq tags_of language_matches
    keep_wanted preferred_lang out =
        if not (is_empty preferred_lang) && not (text_eq preferred_lang (codes "all"))
        then filter (λ src. language_matches (tags_of src.language) preferred_lang) out
        else out

    unfoldable pub rank_sources : List StreamSource → Text → List StreamSource
    unfolding rank
    rank_sources out preferred_resolution =
        rank fl re out (record { resolution = preferred_resolution; languages = []; kind = [] })

    unfoldable pub transform_results : List JackettHit → Text → Text → Text → List StreamSource
    unfolding to_ascii_lowercase trim sources_of keep_wanted rank_sources
    transform_results results preferred_resolution preferred_language kind =
        rank_sources
          (keep_wanted (to_ascii_lowercase (trim preferred_language)) (sources_of results kind))
          (to_ascii_lowercase preferred_resolution)

    -- Each magnet once, and none that is empty.
    unfoldable pub first_of_magnets : List Text → List StreamSource → List StreamSource
    unfolding trim to_ascii_lowercase member
    first_of_magnets seen [] = []
    first_of_magnets seen (src ∷ rest) =
        let key = to_ascii_lowercase (trim src.magnet) in
        let kept = src ∷ first_of_magnets (key ∷ seen) rest in
        let dropped = first_of_magnets seen rest in
        if is_empty key || member seen key then dropped else kept

    unfoldable pub merge_ranked : List StreamSource → List StreamSource → Text → List StreamSource
    unfolding first_of_magnets rank_sources
    merge_ranked a b preferred_resolution =
        if is_empty b
        then a
        else if is_empty a
        then b
        else rank_sources (first_of_magnets [] (a ++ b)) preferred_resolution

unfoldable pub picker_ready : List StreamSource → Bool
picker_ready sources =
    leb 4 (length sources) || leb 2 (length (filter (λ s. leb_ℤ (pos 3) s.seeders) sources))

unfoldable pub cache_is_strong : List StreamSource → Text → Bool
unfolding trim to_ascii_lowercase source_quality_score contains
cache_is_strong sources preferred_resolution =
    let preferred_res = to_ascii_lowercase (trim preferred_resolution) in
    let proper =
      filter (λ s. leb_ℤ (pos 8) s.seeders && leb_ℤ (pos 3) (source_quality_score s.title))
        sources in
    let named =
      filter
        (λ s.
          leb_ℤ (pos 5) s.seeders
          && not (is_empty preferred_res)
          && contains (to_ascii_lowercase s.title) preferred_res)
        sources in
    leb 2 (length proper) && any (λ s. leb_ℤ (pos 20) s.seeders) proper || leb 2 (length named)
