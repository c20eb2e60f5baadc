-- ===== src/Torrents/Link.antt =====
-- backend/src/torrent_links.rs, `magnet_from_torrent` and `encode`. A `String` is the list of its
-- UTF-8 bytes here. SHA-1 (of the crate ring) and the hexadecimal print (of the crate hex) are
-- parameters.
pub mod Hash
pub mod Key
pub mod Percent
use peanut_butter.Prelude.{
  ℕ, ◌+◌, ◌-◌, ◌*◌, ◌/◌, ◌%◌, Bool, false, Option, none, some, List, [], ◌∷◌, ◌++◌, ◌>>=◌, ◌&&◌,
  ◌||◌, ◌==◌, if◌then◌else◌, ltb, leb, length, drop, take, unwrap_or, refl, ◌≡◌,
}
use peanut_butter.Text.{Text, codes, member, text_eq, is_ascii_alphanumeric}
use peanut_butter.Torrents.Bencode.{
  Value, Values, Entries, int, bytes, list, dict, no_values, one_value, no_entries, entry, parse,
}

-- What may follow a leading byte: how many bytes, and the range of the first of them.
unfoldable pub lead : ℕ → Option (ℕ × ℕ × ℕ)
lead b =
    if ltb b 0x80
    then some (0, 0x80, 0xbf)
    else if leb 0xc2 b && leb b 0xdf
    then some (1, 0x80, 0xbf)
    else if b == 0xe0
    then some (2, 0xa0, 0xbf)
    else if b == 0xed
    then some (2, 0x80, 0x9f)
    else if leb 0xe1 b && leb b 0xef
    then some (2, 0x80, 0xbf)
    else if b == 0xf0
    then some (3, 0x90, 0xbf)
    else if leb 0xf1 b && leb b 0xf3
    then some (3, 0x80, 0xbf)
    else if b == 0xf4
    then some (3, 0x80, 0x8f)
    else none

-- Whether the rest is UTF-8, with so many bytes still to follow, the next one in this range.
unfoldable pub is_utf8_from : (pending low high : ℕ) → List ℕ → Bool
unfolding lead
is_utf8_from pending low high [] = pending == 0
is_utf8_from pending low high (b ∷ s) =
    let inner = leb low b && leb b high && is_utf8_from (pending - 1) 0x80 0xbf s in
    let outer : Bool = elim (lead b) [ none ↦ false | some (n, l, h) ↦ is_utf8_from n l h s ] in
    if pending == 0 then outer else inner

-- `String::from_utf8(…).ok()`.
unfoldable pub from_utf8 : List ℕ → Option (List ℕ)
unfolding is_utf8_from
from_utf8 s = if is_utf8_from 0 0x80 0xbf s then some s else none

-- The upper-case hexadecimal digit of `{b:02X}`.
unfoldable pub upper_hex : ℕ → ℕ
upper_hex d = if ltb d 10 then b'0' + d else b'A' + (d - 10)

unfoldable pub is_unreserved : ℕ → Bool
unfolding is_ascii_alphanumeric
is_unreserved b = is_ascii_alphanumeric b || b == b'-' || b == b'_' || b == b'.' || b == b'~'

unfoldable pub encode : List ℕ → Text
unfolding upper_hex is_unreserved
encode [] = []
encode (b ∷ s) =
    let rest = encode s in
    if is_unreserved b then b ∷ rest else b'%' ∷ upper_hex (b / 16) ∷ upper_hex (b % 16) ∷ rest

-- The three variables of the loop over the entries.
pub record Found : Type 0 where
  pub info_span : Option (ℕ × ℕ)
  pub name : Option (List ℕ)
  pub trackers : List (List ℕ)

-- `if let Value::Bytes(b) = value { if let Ok(s) = String::from_utf8(b) { trackers.push(s) } }`.
unfoldable pub push_tracker : Value → List (List ℕ) → List (List ℕ)
unfolding from_utf8
push_tracker (bytes b) out = elim (from_utf8 b) [ none ↦ out | some s ↦ out ++ s ∷ [] ]
push_tracker int out = out
push_tracker (list vs) out = out
push_tracker (dict es start end) out = out

unfoldable pub push_urls : Values → List (List ℕ) → List (List ℕ)
unfolding push_tracker
push_urls no_values out = out
push_urls (one_value u urls) out = push_urls urls (push_tracker u out)

unfoldable pub push_tiers : Values → List (List ℕ) → List (List ℕ)
unfolding push_urls
push_tiers no_values out = out
push_tiers (one_value (list urls) tiers) out = push_tiers tiers (push_urls urls out)
push_tiers (one_value int tiers) out = push_tiers tiers out
push_tiers (one_value (bytes b) tiers) out = push_tiers tiers out
push_tiers (one_value (dict es start end) tiers) out = push_tiers tiers out

-- The loop over the entries of `info`: a later name replaces an earlier one, also if it is no UTF-8.
unfoldable pub name_in : Entries → Option (List ℕ) → Option (List ℕ)
unfolding text_eq from_utf8
name_in no_entries name = name
name_in (entry k (bytes n) es) name =
    name_in es (if text_eq k (codes "name") then from_utf8 n else name)
name_in (entry k int es) name = name_in es name
name_in (entry k (list vs) es) name = name_in es name
name_in (entry k (dict fs start end) es) name = name_in es name

-- The three arms of the match on the key.
unfoldable pub see_info : Value → Found → Found
unfolding name_in
see_info (dict info start end) f = record f {
  info_span = some (start, end);
  name = name_in info f.name;
}
see_info int f = f
see_info (bytes b) f = f
see_info (list vs) f = f

unfoldable pub see_tiers : Value → Found → Found
unfolding push_tiers
see_tiers (list tiers) f = record f { trackers = push_tiers tiers f.trackers }
see_tiers int f = f
see_tiers (bytes b) f = f
see_tiers (dict es start end) f = f

unfoldable pub see : List ℕ → Value → Found → Found
unfolding text_eq see_info see_tiers push_tracker
see key value f =
    if text_eq key (codes "info")
    then see_info value f
    else if text_eq key (codes "announce")
    then record f { trackers = push_tracker value f.trackers }
    else if text_eq key (codes "announce-list")
    then see_tiers value f
    else f

unfoldable pub see_all : Entries → Found → Found
unfolding see
see_all no_entries f = f
see_all (entry key value es) f = see_all es (see key value f)

-- `filter(|t| seen.insert(t.clone()))`.
unfoldable pub distinct : List (List ℕ) → List (List ℕ) → List (List ℕ)
unfolding member
distinct seen [] = []
distinct seen (t ∷ ts) =
    let fresh = t ∷ distinct (t ∷ seen) ts in
    let rest = distinct seen ts in if member seen t then rest else fresh

unfoldable pub tracker_params : List (List ℕ) → Text
unfolding encode
tracker_params [] = []
tracker_params (t ∷ ts) = codes "&tr=" ++ (encode t ++ tracker_params ts)

unfoldable pub entries_in : Value → Option Entries
entries_in (dict es start end) = some es
entries_in int = none
entries_in (bytes b) = none
entries_in (list vs) = none

-- What follows `&dn=`: the name, and at most 20 trackers.
unfoldable pub name_and_trackers : Found → List ℕ → Text
unfolding encode distinct tracker_params
name_and_trackers f fallback_name =
    encode (unwrap_or f.name fallback_name) ++ tracker_params (take 20 (distinct [] f.trackers))

module _ (sha1 : List ℕ → List ℕ) (hex : List ℕ → Text) where
  -- The magnet of what was found.
  unfoldable pub magnet_of : List ℕ → Found → List ℕ → ℕ × ℕ → Text
  unfolding name_and_trackers
  magnet_of input f fallback_name (start, end) =
      codes "magnet:?xt=urn:btih:"
      ++ (hex (sha1 (take (end - start) (drop start input)))
          ++ (codes "&dn=" ++ name_and_trackers f fallback_name))

  unfoldable pub magnet_from_torrent : List ℕ → List ℕ → Option Text
  unfolding parse see_all entries_in magnet_of
  magnet_from_torrent input fallback_name = do
    (top, _) ← parse (2 * length input) input 0
    entries ← entries_in top
    let f = see_all entries (record { info_span = none; name = none; trackers = [] })
    span ← f.info_span
    some (magnet_of input f fallback_name span)
