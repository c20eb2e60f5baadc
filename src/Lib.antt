-- ===== src/Lib.antt =====
-- PeanutButter: the backend's core logic, in Rust under backend/src.
--
-- A search for a title asks every configured provider at once (`gather` in sources/mod.rs), makes
-- one entry of the results that are the same torrent or link (`dedup_key`, `merge`, `absorb`), asks
-- the hosts of direct links whether they serve them (`check_links`), keeps one of each group of
-- mirrors (`collapse_mirrors`), and screens, scores and sorts what is left (`rank` in
-- sources/rank.rs), which reads release names by the rules of jackett.rs. A .torrent file
-- is turned into a magnet by the digest of its info dictionary (`magnet_from_torrent` in
-- torrent_links.rs), the file to play is picked from it (`pick_playable_video` in stream.rs), and
-- files of the server are sent by byte ranges (`parse_range` in media/serve.rs). A request passes
-- the gate of auth.rs (`gate`), which knows sessions by their keys and blocks addresses that guess,
-- before a handler answers it.
--
-- Files, with the code they model:
--   Prelude, Text, Outside   the language and its standard library as far as the code uses them:
--                            lists, options, integers; texts as code points with their UTF-8
--                            bytes; the types of what is a parameter
--   Sources.Types            graphql/types.rs: StreamSource
--   Sources.Key, .Base32, .Hex   sources/mod.rs: dedup_key, info_hash_of, normalize_hash,
--                            base32_to_hex
--   Sources.Magnet           sources/mod.rs: merge_magnets
--   Sources.Merge            sources/mod.rs: merge, absorb; the mutable vector and the map of places
--                            are a record that each step passes on
--   Sources.Gather           sources/mod.rs: gather, enough
--   Sources.Links            sources/mod.rs: check_links, collapse_mirrors
--   Jackett                  jackett.rs: tokens of release names, health_for, calculate_rating,
--                            episode_specificity, language_codes, language_matches, size_plausible
--   Jackett.Hits             jackett.rs: hit_category_allowed, torrent_locator, kind_categories
--   Jackett.Indexers         jackett.rs: indexer_fits_kind, indexer_priority, http_status_message,
--                            indexer_error_message
--   Jackett.Episodes         jackett.rs: torrent_usable_for_episode, build_query and their parts
--   Jackett.Screening        jackett.rs: screen_release, external_source, transform_results,
--                            merge_ranked, cache_is_strong
--   Jackett.Target, .ReleaseTags   jackett.rs: SearchTarget.matches, strip_release_prefix,
--                            is_release_tag; one round of the loop of strip_release_prefix is a
--                            function, and the length of the name is its fuel
--   Rank                     sources/rank.rs: rank, score and its parts
--   Torrents.Bencode         torrent_links.rs: parse; Bencode.Tree is the format and its printer
--   Torrents.Link            torrent_links.rs: magnet_from_torrent, encode
--   Media.Range              media/serve.rs: parse_range
--   Versions                 server_update.rs: parse_version, is_newer
--   Errors                   error.rs: AppError and its texts and status codes
--   Auth.Limits, .Pairing, .Requests   ratelimit.rs; pin.rs; what auth.rs and admin.rs read of a
--                            request
--   Auth.Gate                auth.rs: gate, resolve_token, pair; the sessions of admin.rs; the
--                            caches, the counters and the rows are a state that each call passes on
--   Auth.Flash               admin.rs: encode_flash, decode_flash, on bytes
--   Cache                    cache.rs: classify
--   Filter                   content_filter.rs: is_blocked_genre, is_blocked_keyword,
--                            is_blocked_content_rating, BLOCKED_GENRE_SQL_LIST
--   Providers                providers.rs: split_leading_tags, with the length of the line as fuel,
--                            and number_after
--   Trackers                 trackers.rs: parse
--   Subtitles                subtitles.rs: normalize_imdb, normalize_lang, language_label, lang_rank
--   Settings                 config.rs: LiveSettings and its changes, tmdb_proxy_url and the other
--                            addresses; Settings.Languages: parse_language_codes
--   Segments                 introdb.rs: MediaTimestamps.normalized
--   Catalogs                 addon_catalogs.rs: imdb_ids, service_id, round_robin, tags;
--                            Catalogs.Mix: mix, whose loop has the limit as its fuel
--   Playback                 stream.rs: pick_playable_video and its parts; Playback.Errors:
--                            friendly_stream_error, friendly_list_files_error
-- A module's children hold its proofs; the Tests modules run the definitions on small inputs.
--
-- Texts and numbers. A text is the list of its code points; where the code reads bytes, its UTF-8
-- encoding is read. An `i32` is an integer and a `u64` a number, with the remainder written out
-- where a shift can drop bits. Fuel: the loop of `base32_to_hex` over the nibbles gets as much fuel
-- as there are bits, and each round takes four of them. The parser of bencode gets fuel for each call
-- and each round of a loop; twice the length of the input covers what can be printed. The loops over the tags of a
-- release name or a description get its length, as each round takes a character; the rounds of a mix
-- of catalogs are bounded by its limit.
--
-- Parameters. Floating point numbers (with documented facts on their order), the regex crate, the hosts of
-- direct links, SHA-1 and the hexadecimal print of a digest, the caches of the moka crate, the
-- parser of GraphQL, the answers of the database, and the completions of the providers' futures are arguments of the definitions. A
-- run of `gather` is given by the sequence of completions with their times.
--
-- Not modelled: input and output (the HTTP clients of indexers, metadata and subtitles, the
-- database, GraphQL resolvers, HTML pages, the sessions of torrents, the download of updates), the
-- apps, the parsing of answers in XML and JSON (torznab, TMDB, manifests and streams of add-ons),
-- the rest of providers.rs and jackett.rs, and the keys of the cache of answers.
pub mod Prelude
pub mod Text
pub mod Outside
pub mod Sources
pub mod Jackett
pub mod Rank
pub mod Media
pub mod Torrents
pub mod Versions
pub mod Errors
pub mod Auth
pub mod Settings
pub mod Playback
pub mod Cache
pub mod Catalogs
pub mod Segments
pub mod Filter
pub mod Trackers
pub mod Subtitles
pub mod Providers
