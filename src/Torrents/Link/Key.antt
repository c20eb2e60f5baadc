-- ===== src/Torrents/Link/Key.antt =====
-- The magnet of a torrent, read by `info_hash_of`.
use peanut_butter.Prelude.{
  ℕ, ◌≡◌, refl, ap, ◌∙◌, none, some, List, [], ◌∷◌, ◌++◌, take_while, arith,
}
use peanut_butter.Text.{Text, codes, is_ascii_alphanumeric, after_first, to_ascii_lowercase}
use peanut_butter.Sources.Hex.{IsInfoHash, LowerHex, is_lower_hex}
use peanut_butter.Sources.Key.{info_hash_of, normalize_hash}
use peanut_butter.Sources.Key.Laws.{normalize_hash-IsInfoHash}
use peanut_butter.Torrents.Bencode.Tree.{Fields, table, encode as print, HavePrintable}
use peanut_butter.Torrents.Link.{magnet_from_torrent}
use peanut_butter.Torrents.Link.Hash.{info_of, magnet_from_torrent_hash}

take_while-LowerHex :
    (h rest : Text)
    → LowerHex h
    → take_while is_ascii_alphanumeric (to_ascii_lowercase (h ++ b'&' ∷ rest)) ≡ h
unfolding to_ascii_lowercase is_lower_hex is_ascii_alphanumeric
take_while-LowerHex [] rest v = refl
take_while-LowerHex (c ∷ h) rest v = ground (arith, take_while-LowerHex h rest v.1)

after_btih :
    (s : Text)
    → after_first (to_ascii_lowercase (codes "magnet:?xt=urn:btih:" ++ s)) (codes "urn:btih:")
      ≡ some (to_ascii_lowercase s)
unfolding after_first to_ascii_lowercase
after_btih s = refl

info_hash_of_raw :
    (magnet raw : Text)
    → after_first (to_ascii_lowercase magnet) (codes "urn:btih:") ≡ some raw
    → info_hash_of magnet ≡ normalize_hash (take_while is_ascii_alphanumeric raw)
unfolding info_hash_of
info_hash_of_raw magnet raw e = rw e refl

pub info_hash_of-magnet :
    (h rest : Text)
    → IsInfoHash h
    → info_hash_of (codes "magnet:?xt=urn:btih:" ++ (h ++ (codes "&dn=" ++ rest))) ≡ some h
info_hash_of-magnet h rest v =
    info_hash_of_raw _ _ (after_btih (h ++ (codes "&dn=" ++ rest)))
    ∙ ap normalize_hash (take_while-LowerHex h (codes "dn=" ++ rest) v.1)
    ∙ normalize_hash-IsInfoHash h v

-- A torrent that is printed from fields with an `info` dictionary has a magnet, and its hash, as the
-- sources read it, is the digest of exactly the bytes to which that dictionary is printed (of
-- several, the last). A digest must print as 40 lower-case hexadecimal digits.
pub info_hash_of-magnet_from_torrent :
    (sha1 : List ℕ → List ℕ) (hex : List ℕ → Text) (fs info : Fields) (title : List ℕ)
    → ((s : List ℕ) → IsInfoHash (hex (sha1 s)))
    → HavePrintable fs
    → info_of fs none ≡ some info
    → (magnet : Text) × (magnet_from_torrent sha1 hex (print (table fs)) title ≡ some magnet)
      × (info_hash_of magnet ≡ some (hex (sha1 (print (table info)))))
info_hash_of-magnet_from_torrent sha1 hex fs info title digest v h =
    let (rest, e) = magnet_from_torrent_hash sha1 hex fs info title v h in
    (_, e, info_hash_of-magnet _ rest (digest (print (table info))))
