-- ===== src/Sources/Hex.antt =====
-- Texts of lower-case hexadecimal digits, the form of an info hash, under the text operations.
use mathlib.Core.List.{reverse, reverse-cons, reverse-reverse}
use peanut_butter.Prelude.{
  ℕ, ◌≡◌, refl, Bool, true, ◌&&◌, ◌||◌, [], ◌∷◌, arith, length, All, All-append, all, leb,
  drop_while, sym, subst,
}
use peanut_butter.Text.{
  Text, utf8, trim, to_ascii_lowercase, is_whitespace, is_ascii_hexdigit, is_ascii_digit,
}

-- A hexadecimal digit in lower case.
unfoldable pub is_lower_hex : ℕ → Bool
unfolding is_ascii_digit
is_lower_hex c = is_ascii_digit c || leb b'a' c && leb c b'f'

abbrev pub LowerHex : Text → Type 0
LowerHex = All (λ c. is_lower_hex c ≡ true)

-- The form of a hash in every key: 40 hexadecimal digits in lower case.
abbrev pub IsInfoHash : Text → Type 0
IsInfoHash h = (length h ≡ 40) × LowerHex h

pub drop_while_none : (s : Text) → LowerHex s → drop_while is_whitespace s ≡ s
unfolding is_whitespace is_lower_hex
drop_while_none [] v = refl
drop_while_none (c ∷ s) v = ground arith

pub LowerHex-reverse : (s : Text) → LowerHex s → LowerHex (reverse s)
LowerHex-reverse [] v = tt
LowerHex-reverse (c ∷ s) v =
    subst LowerHex (sym (reverse-cons c s))
      (All-append _ (reverse s) (c ∷ []) (LowerHex-reverse s v.1) (v.0, tt))

pub trim-LowerHex : (s : Text) → LowerHex s → trim s ≡ s
unfolding trim
trim-LowerHex s v =
    rw (drop_while_none s v, drop_while_none (reverse s) (LowerHex-reverse s v)) (reverse-reverse s)

pub to_ascii_lowercase-LowerHex : (s : Text) → LowerHex s → to_ascii_lowercase s ≡ s
unfolding to_ascii_lowercase is_lower_hex
to_ascii_lowercase-LowerHex [] v = refl
to_ascii_lowercase-LowerHex (c ∷ s) v = ground (arith, to_ascii_lowercase-LowerHex s v.1)

pub utf8-LowerHex : (s : Text) → LowerHex s → utf8 s ≡ s
unfolding utf8 is_lower_hex
utf8-LowerHex [] v = refl
utf8-LowerHex (c ∷ s) v = ground (arith, utf8-LowerHex s v.1)

pub all-LowerHex : (s : Text) → LowerHex s → all is_ascii_hexdigit s ≡ true
unfolding is_ascii_hexdigit is_lower_hex
all-LowerHex [] v = refl
all-LowerHex (c ∷ s) v = ground (arith, all-LowerHex s v.1)

-- Bytes that are hexadecimal digits are whole characters.
pub utf8-all_hex :
    (s : Text)
    → all is_ascii_hexdigit (utf8 (to_ascii_lowercase s)) ≡ true
    → (utf8 (to_ascii_lowercase s) ≡ to_ascii_lowercase s) × LowerHex (to_ascii_lowercase s)
unfolding utf8 to_ascii_lowercase is_ascii_hexdigit is_lower_hex
utf8-all_hex [] h = (refl, tt)
utf8-all_hex (c ∷ s) h = ground (arith, utf8-all_hex s)
