-- ===== src/Text/Defs.antt =====
-- Code points, texts and the `str` methods.
use mathlib.Core.List.{reverse}
use peanut_butter.Prelude.{
  ℕ, ◌+◌, ◌-◌, ◌/◌, ◌%◌, Bool, true, false, ◌&&◌, ◌||◌, Option, none, some, List, [], ◌∷◌, ◌++◌,
  map, String, code, ltb, leb, ◌==◌, if◌then◌else◌, length, drop_while, filter, not, is_empty,
  compare, Ordering,
}

abbrev pub Text : Type 0
Text = List ℕ

-- The code points of a literal.
abbrev pub codes : String → Text
codes String.[] = []
codes (String.◌∷◌ c s) = code c ∷ codes s

unfoldable pub is_ascii_digit : ℕ → Bool
is_ascii_digit c = leb b'0' c && leb c b'9'

unfoldable pub is_ascii_lowercase : ℕ → Bool
is_ascii_lowercase c = leb b'a' c && leb c b'z'

unfoldable pub is_ascii_uppercase : ℕ → Bool
is_ascii_uppercase c = leb b'A' c && leb c b'Z'

unfoldable pub is_ascii_alphanumeric : ℕ → Bool
unfolding is_ascii_digit is_ascii_lowercase is_ascii_uppercase
is_ascii_alphanumeric c = is_ascii_digit c || is_ascii_lowercase c || is_ascii_uppercase c

unfoldable pub is_ascii_hexdigit : ℕ → Bool
unfolding is_ascii_digit
is_ascii_hexdigit c = is_ascii_digit c || leb b'a' c && leb c b'f' || leb b'A' c && leb c b'F'

unfoldable pub ascii_lower : ℕ → ℕ
unfolding is_ascii_uppercase
ascii_lower c = if is_ascii_uppercase c then c + 32 else c

unfoldable pub ascii_upper : ℕ → ℕ
unfolding is_ascii_lowercase
ascii_upper c = if is_ascii_lowercase c then c - 32 else c

unfoldable pub to_ascii_lowercase : Text → Text
unfolding ascii_lower
to_ascii_lowercase s = map ascii_lower s

unfoldable pub to_ascii_uppercase : Text → Text
unfolding ascii_upper
to_ascii_uppercase s = map ascii_upper s

-- `char::is_whitespace`: the code points with Unicode's White_Space property.
unfoldable pub is_whitespace : ℕ → Bool
is_whitespace c =
    leb 9 c && leb c 13
    || c == 0x20
    || c == 0x85
    || c == 0xa0
    || c == 0x1680
    || leb 0x2000 c && leb c 0x200a
    || c == 0x2028
    || c == 0x2029
    || c == 0x202f
    || c == 0x205f
    || c == 0x3000

unfoldable pub trim_start : Text → Text
unfolding is_whitespace
trim_start s = drop_while is_whitespace s

unfoldable pub trim : Text → Text
unfolding trim_start
trim s = reverse (trim_start (reverse (trim_start s)))

unfoldable pub text_eq : Text → Text → Bool
text_eq [] [] = true
text_eq [] (d ∷ t) = false
text_eq (c ∷ s) [] = false
text_eq (c ∷ s) (d ∷ t) = c == d && text_eq s t

-- `strip_prefix`: what follows the prefix.
unfoldable pub strip_prefix : Text → Text → Option Text
strip_prefix s [] = some s
strip_prefix [] (d ∷ t) = none
strip_prefix (c ∷ s) (d ∷ t) = if c == d then strip_prefix s t else none

unfoldable pub starts_with : Text → Text → Bool
starts_with s [] = true
starts_with [] (d ∷ t) = false
starts_with (c ∷ s) (d ∷ t) = c == d && starts_with s t

unfoldable pub contains : Text → Text → Bool
unfolding starts_with
contains [] t = starts_with [] t
contains (c ∷ s) t = starts_with (c ∷ s) t || contains s t

-- `&s[s.find(t)? + t.len()..]`: what follows the first occurrence.
unfoldable pub after_first : Text → Text → Option Text
unfolding strip_prefix
after_first [] t = strip_prefix [] t
after_first (c ∷ s) t =
    let later = after_first s t in elim (strip_prefix (c ∷ s) t) [ some r ↦ some r | none ↦ later ]

abbrev pub cons_head : ℕ → List Text → List Text
cons_head c [] = (c ∷ []) ∷ []
cons_head c (p ∷ ps) = (c ∷ p) ∷ ps

-- `split` at the characters of a class: there is always at least one part.
unfoldable pub split : Text → (ℕ → Bool) → List Text
split [] sep = [] ∷ []
split (c ∷ s) sep = let rest = split s sep in if sep c then [] ∷ rest else cons_head c rest

unfoldable pub split_once : Text → ℕ → Option (Text × Text)
split_once [] sep = none
split_once (c ∷ s) sep =
    let rest = split_once s sep in
    if c == sep then some ([], s) else elim rest [ none ↦ none | some (a, b) ↦ some (c ∷ a, b) ]

-- `[T]::join`.
unfoldable pub join : List Text → Text → Text
join [] sep = []
join (p ∷ []) sep = p
join (p ∷ q ∷ ps) sep = p ++ (sep ++ join (q ∷ ps) sep)

-- The UTF-8 bytes of a code point, and of a text.
unfoldable pub encode_utf8 : ℕ → List ℕ
encode_utf8 c =
    if ltb c 0x80
    then c ∷ []
    else if ltb c 0x800
    then (0xc0 + c / 64) ∷ (0x80 + c % 64) ∷ []
    else if ltb c 0x10000
    then (0xe0 + c / 4096) ∷ (0x80 + c / 64 % 64) ∷ (0x80 + c % 64) ∷ []
    else (0xf0 + c / 262144) ∷ (0x80 + c / 4096 % 64) ∷ (0x80 + c / 64 % 64) ∷ (0x80 + c % 64) ∷ []

unfoldable pub utf8 : Text → List ℕ
unfolding encode_utf8
utf8 [] = []
utf8 (c ∷ s) = encode_utf8 c ++ utf8 s

-- `str::len` counts bytes.
unfoldable pub len : Text → ℕ
unfolding utf8
len s = length (utf8 s)

-- `str::cmp` compares the bytes in turn.
unfoldable pub compare_bytes : List ℕ → List ℕ → Ordering
compare_bytes [] [] = Ordering.eq
compare_bytes [] (d ∷ t) = Ordering.lt
compare_bytes (c ∷ s) [] = Ordering.gt
compare_bytes (c ∷ s) (d ∷ t) =
    let rest = compare_bytes s t in
    elim (compare c d) [
      | Ordering.lt ↦ Ordering.lt
      | Ordering.eq ↦ rest
      | Ordering.gt ↦ Ordering.gt
    ]

-- `list.contains(&t)`.
unfoldable pub member : List Text → Text → Bool
unfolding text_eq
member [] t = false
member (x ∷ xs) t = text_eq x t || member xs t

-- `split_whitespace`: the parts between white space that are not empty.
unfoldable pub split_whitespace : Text → List Text
unfolding split is_whitespace
split_whitespace s = filter (λ p. not (is_empty p)) (split s is_whitespace)

-- `trim_start_matches` and `trim_end_matches` of a class of characters.
unfoldable pub trim_start_matches : Text → (ℕ → Bool) → Text
trim_start_matches s p = drop_while p s

unfoldable pub trim_end_matches : Text → (ℕ → Bool) → Text
trim_end_matches s p = reverse (drop_while p (reverse s))

-- `ends_with`.
unfoldable pub ends_with : Text → Text → Bool
unfolding starts_with
ends_with s t = starts_with (reverse s) (reverse t)
