-- ===== src/Sources/Key/Laws.antt =====
-- The info hash is a canonical form, and the key tells exactly what it should.
use peanut_butter.Prelude.{
  ◌≡◌, refl, Bool, true, false, Option, none, some, ◌++◌, arith, if◌then◌else◌, get_or, drop,
  is_empty, ◌↔◌, ◌∙◌, sym, ap,
}
use peanut_butter.Text.{Text, codes, utf8, len, trim, to_ascii_lowercase}
use peanut_butter.Sources.Hex.{
  IsInfoHash, trim-LowerHex, to_ascii_lowercase-LowerHex, utf8-LowerHex, all-LowerHex, utf8-all_hex,
}
use peanut_butter.Sources.Types.{StreamSource, is_http}
use peanut_butter.Sources.Base32.Exact.{base32_to_hex_sound}
use peanut_butter.Sources.Key.{normalize_hash, info_hash_of, dedup_key, torrent_key}

normalize_hash_sound : (raw h : Text) → normalize_hash raw ≡ some h → IsInfoHash h
unfolding normalize_hash len
normalize_hash_sound raw h e =
    ground
      (arith, utf8-all_hex (trim raw), base32_to_hex_sound (utf8 (to_ascii_lowercase (trim raw))) h)

pub normalize_hash-IsInfoHash : (h : Text) → IsInfoHash h → normalize_hash h ≡ some h
unfolding normalize_hash len
normalize_hash-IsInfoHash h (e, v) =
    rw (trim-LowerHex h v, to_ascii_lowercase-LowerHex h v, utf8-LowerHex h v, all-LowerHex h v, e)

-- What `normalize_hash` returns is 40 lower-case hexadecimal digits, and normalising it again
-- changes nothing.
pub normalize_hash_canonical :
    (raw h : Text) → normalize_hash raw ≡ some h → IsInfoHash h × (normalize_hash h ≡ some h)
normalize_hash_canonical raw h e =
    let v = normalize_hash_sound raw h e in (v, normalize_hash-IsInfoHash h v)

-- What a result is the same by: its URL, its info hash, or for want of both its own text.
pub data Identity : Type 0 where
  url : Text → Identity
  hash : Text → Identity
  other : Text → Identity

torrent_identity : StreamSource → Option Text → Option Text → Identity
torrent_identity s (some h) by_id = hash h
torrent_identity s none (some h) = hash h
torrent_identity s none none = other (if is_empty (trim s.magnet) then trim s.id else trim s.magnet)

unfoldable pub identity : StreamSource → Identity
unfolding torrent_identity is_http
identity s =
    if is_http s
    then url (trim s.url)
    else torrent_identity s (info_hash_of s.magnet) (normalize_hash s.id)

print : Identity → Text
print (url u) = codes "url:" ++ u
print (hash h) = codes "btih:" ++ h
print (other t) = codes "id:" ++ t

first_code : {s t : Text} → s ≡ t → get_or s 0 0 ≡ get_or t 0 0
first_code e = ap (λ (r : Text). get_or r 0 0) e

print-injective : (i j : Identity) → print i ≡ print j → i ≡ j
unfolding print
print-injective (url u) (url v) e = ap url (ap (drop 4) e)
print-injective (url u) (hash v) e = absurd (omega (arith, first_code e))
print-injective (url u) (other v) e = absurd (omega (arith, first_code e))
print-injective (hash u) (url v) e = absurd (omega (arith, first_code e))
print-injective (hash u) (hash v) e = ap hash (ap (drop 5) e)
print-injective (hash u) (other v) e = absurd (omega (arith, first_code e))
print-injective (other u) (url v) e = absurd (omega (arith, first_code e))
print-injective (other u) (hash v) e = absurd (omega (arith, first_code e))
print-injective (other u) (other v) e = ap other (ap (drop 3) e)

torrent_key-print :
    (s : StreamSource) (h by_id : Option Text)
    → torrent_key s h by_id ≡ print (torrent_identity s h by_id)
unfolding torrent_key print torrent_identity
torrent_key-print s (some h) by_id = refl
torrent_key-print s none (some h) = refl
torrent_key-print s none none = refl

dedup_key-print : (s : StreamSource) → dedup_key s ≡ print (identity s)
unfolding dedup_key identity
dedup_key-print s =
    elim (is_http s)
      as (λ (b : Bool).
        (if b
          then codes "url:" ++ trim s.url
          else torrent_key s (info_hash_of s.magnet) (normalize_hash s.id))
        ≡ print (
            if b
            then url (trim s.url)
            else torrent_identity s (info_hash_of s.magnet) (normalize_hash s.id))) [
              | true ↦ unfold print in refl
              | false ↦ torrent_key-print s (info_hash_of s.magnet) (normalize_hash s.id)
            ]

-- Two results have one key exactly when they are the same by URL (two direct links), by info hash
-- (two torrents that have one, in the magnet or else in the id), or by their own text (two torrents
-- without): the three kinds of keys never meet.
pub dedup_key_iff : (a b : StreamSource) → (dedup_key a ≡ dedup_key b) ↔ (identity a ≡ identity b)
dedup_key_iff a b = (
  λ e. print-injective (identity a) (identity b) (sym (dedup_key-print a) ∙ e ∙ dedup_key-print b),
  λ e. dedup_key-print a ∙ ap print e ∙ sym (dedup_key-print b),
)
