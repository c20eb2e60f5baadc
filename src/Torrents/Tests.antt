-- ===== src/Torrents/Tests.antt =====
-- The theorems on .torrent files at inputs that meet their hypotheses.
use peanut_butter.Prelude.{◌≡◌, refl, ◌+◌, ◌*◌, some, none, [], ◌++◌, length, arith}
use peanut_butter.Text.{Text, text_eq, codes, decimal}
use peanut_butter.Torrents.Bencode.{parse, int, dict, entry, no_entries}
use peanut_butter.Torrents.Bencode.Tree.{
  Fields, Tree, number, text, items, table, no_trees, tree, no_fields, field, encode, value_of,
  IsPrintable,
}
use peanut_butter.Torrents.Link.{magnet_from_torrent, encode as percent}
use peanut_butter.Torrents.Link.Percent.{decode, IsEncoded, encode_lem}
use peanut_butter.Torrents.Link.Hash.{info_of}
use peanut_butter.Torrents.Link.Key.{info_hash_of-magnet_from_torrent}
use peanut_butter.Sources.Hex.{IsInfoHash, is_lower_hex}
use peanut_butter.Sources.Key.{info_hash_of}
use peanut_butter.Torrents.Bencode.RoundTrip.{parse-encode}

-- A small torrent: a tracker, and an `info` dictionary.
abbrev info : Tree
info = table (
    field (codes "length") (number (codes "10"))
      (field (codes "name") (text (codes "file")) no_fields))

abbrev torrent : Tree
torrent = table (
    field (codes "announce") (text (codes "udp://t")) (
      field (codes "announce-list") (items (tree (items no_trees) no_trees))
        (field (codes "info") info no_fields)))

info_span :
    parse 20 (codes "d4:infod1:ai7eee") 0
    ≡ some (
      dict (entry (codes "info") (dict (entry (codes "a") int no_entries) 7 15) no_entries) 0 16,
      16,
    )
unfolding parse
info_span = refl

printed : encode info ≡ codes "d6:lengthi10e4:name4:filee"
unfolding encode decimal
printed = refl

torrent-IsPrintable : IsPrintable torrent
torrent-IsPrintable = ground arith

parse-encode_example :
    parse
      (2 * length (codes "x" ++ (encode torrent ++ [])))
      (codes "x" ++ (encode torrent ++ []))
      (length (codes "x"))
    ≡ some (value_of torrent (length (codes "x")), length (codes "x") + length (encode torrent))
parse-encode_example = parse-encode torrent (codes "x") [] torrent-IsPrintable

small :
    magnet_from_torrent
      (λ s. s)
      (λ s. s)
      (codes "d8:announce9:udp://t/a4:infod4:name4:f le6:pieces0:ee")
      []
    ≡ some (codes "magnet:?xt=urn:btih:d4:name4:f le6:pieces0:e&dn=f%20le&tr=udp%3A%2F%2Ft%2Fa")
unfolding magnet_from_torrent
small = refl

abbrev info_fields : Fields
info_fields =
    field (codes "length") (number (codes "10"))
      (field (codes "name") (text (codes "file")) no_fields)

abbrev fields : Fields
fields =
    field (codes "announce") (text (codes "udp://t"))
      (field (codes "info") (table info_fields) no_fields)

fields-info : info_of fields none ≡ some info_fields
unfolding text_eq
fields-info = refl

-- Stands for a digest and its print.
abbrev digits : Text
digits = codes "0123456789abcdef0123456789abcdef01234567"

digits-IsInfoHash : IsInfoHash digits
unfolding is_lower_hex
digits-IsInfoHash = (refl, ground arith)

info_hash_of-magnet_from_torrent_example :
    (magnet : Text) × (magnet_from_torrent (λ s. s) (λ s. digits) (encode (table fields)) []
      ≡ some magnet)
    × (info_hash_of magnet ≡ some digits)
info_hash_of-magnet_from_torrent_example =
    info_hash_of-magnet_from_torrent (λ s. s) (λ s. digits) fields info_fields []
      (λ s. digits-IsInfoHash) (ground arith) fields-info

encode_lem_example :
    (decode (percent (codes "a&b/c")) ≡ codes "a&b/c") × IsEncoded (percent (codes "a&b/c"))
encode_lem_example = encode_lem (codes "a&b/c") (ground arith)
