-- ===== src/Sources/Key.antt =====
-- backend/src/sources/mod.rs: what makes two results the same, `dedup_key`.
pub mod Laws
use peanut_butter.Prelude.{
  ℕ, Bool, Option, none, some, ◌&&◌, ◌++◌, if◌then◌else◌, ◌==◌, ◌>>=◌, all, take_while, ◌≡◌, refl,
  is_empty,
}
use peanut_butter.Text.{
  Text, codes, utf8, len, trim, to_ascii_lowercase, is_ascii_hexdigit, is_ascii_alphanumeric,
  after_first,
}
use peanut_butter.Sources.Types.{StreamSource, is_http}
use peanut_butter.Sources.Base32.{base32_to_hex}

unfoldable pub normalize_hash : Text → Option Text
unfolding trim to_ascii_lowercase len is_ascii_hexdigit base32_to_hex
normalize_hash raw =
    let h = to_ascii_lowercase (trim raw) in
    if len h == 40 && all is_ascii_hexdigit (utf8 h)
    then some h
    else if len h == 32
    then base32_to_hex (utf8 h)
    else none

unfoldable pub info_hash_of : Text → Option Text
unfolding to_ascii_lowercase after_first is_ascii_alphanumeric normalize_hash
info_hash_of magnet = do
  raw ← after_first (to_ascii_lowercase magnet) (codes "urn:btih:")
  normalize_hash (take_while is_ascii_alphanumeric raw)

-- The key of a torrent by its magnet's hash, else by its id's hash, else by the text itself.
unfoldable pub torrent_key : StreamSource → Option Text → Option Text → Text
unfolding trim
torrent_key s (some h) by_id = codes "btih:" ++ h
torrent_key s none (some h) = codes "btih:" ++ h
torrent_key s none none =
    codes "id:" ++ (if is_empty (trim s.magnet) then trim s.id else trim s.magnet)

unfoldable pub dedup_key : StreamSource → Text
unfolding is_http trim info_hash_of normalize_hash torrent_key
dedup_key s =
    if is_http s
    then codes "url:" ++ trim s.url
    else torrent_key s (info_hash_of s.magnet) (normalize_hash s.id)
