-- ===== src/Auth/Flash.antt =====
-- backend/src/admin.rs: the cookie that holds a message for the next page, as bytes.
pub mod Laws
use peanut_butter.Prelude.{
  ℕ, ◌+◌, ◌*◌, ◌-◌, ◌/◌, ◌%◌, Bool, Option, none, some, List, [], ◌∷◌, ◌++◌, ◌==◌, ◌&&◌, ◌||◌,
  if◌then◌else◌, leb,
}
use peanut_butter.Text.{is_ascii_alphanumeric, is_ascii_hexdigit}
use peanut_butter.Torrents.Link.{upper_hex}

unfoldable pub is_plain : ℕ → Bool
unfolding is_ascii_alphanumeric
is_plain b = is_ascii_alphanumeric b || b == b'-' || b == b'_' || b == b'.'

unfoldable pub encode_flash : List ℕ → List ℕ
unfolding is_plain upper_hex
encode_flash [] = []
encode_flash (b ∷ s) =
    let rest = encode_flash s in
    if b == b' '
    then b'+' ∷ rest
    else if is_plain b
    then b ∷ rest
    else b'%' ∷ upper_hex (b / 16) ∷ upper_hex (b % 16) ∷ rest

-- The value of a hexadecimal digit.
unfoldable pub hex_value : ℕ → ℕ
hex_value c = if leb c b'9' then c - b'0' else if leb c b'F' then c - b'A' + 10 else c - b'a' + 10

-- `u8::from_str_radix` of two bytes; a number may have a plus sign.
unfoldable pub radix16 : ℕ → ℕ → Option ℕ
unfolding is_ascii_hexdigit hex_value
radix16 a b =
    if is_ascii_hexdigit a && is_ascii_hexdigit b
    then some (hex_value a * 16 + hex_value b)
    else if a == b'+' && is_ascii_hexdigit b
    then some (hex_value b)
    else none

-- A byte with nothing escaped behind it.
unfoldable pub plain_byte : ℕ → ℕ
plain_byte c = if c == b'+' then b' ' else c

-- The bytes, before they are read as UTF-8.
unfoldable pub decode_flash : List ℕ → List ℕ
unfolding radix16 plain_byte
decode_flash [] = []
decode_flash (c ∷ []) = plain_byte c ∷ []
decode_flash (c ∷ a ∷ []) = plain_byte c ∷ plain_byte a ∷ []
decode_flash (c ∷ a ∷ b ∷ s) =
    let escaped = decode_flash s in
    let plain = plain_byte c ∷ decode_flash (a ∷ b ∷ s) in
    if c == b'%' then elim (radix16 a b) [ some v ↦ v ∷ escaped | none ↦ plain ] else plain
