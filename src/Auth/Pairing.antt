-- ===== src/Auth/Pairing.antt =====
-- backend/src/pin.rs and the keys of backend/src/db/mod.rs: pairing codes and device keys.
use peanut_butter.Prelude.{
  ℕ, Bool, false, List, [], ◌∷◌, ◌++◌, ◌==◌, ◌||◌, if◌then◌else◌, filter, take, drop, not, is_empty,
  bit_xor, bit_or,
}
use peanut_butter.Text.{Text, codes, trim, is_ascii_digit, starts_with, utf8, len}

unfoldable pub digits_only : Text → Text
unfolding is_ascii_digit
digits_only value = filter is_ascii_digit value

unfoldable pub is_pairing_code : Text → Bool
unfolding digits_only len
is_pairing_code value = len (digits_only value) == 6

unfoldable pub normalize_code : Text → Text
unfolding digits_only len trim
normalize_code value =
    let digits = digits_only value in if len digits == 6 then digits else trim value

unfoldable pub format_code : Text → Text
unfolding digits_only len trim
format_code value =
    let digits = digits_only value in
    if len digits == 6 then take 3 digits ++ (b' ' ∷ drop 3 digits) else trim value

-- `zip` and the fold of the differences.
unfoldable pub difference : ℕ → List ℕ → List ℕ → ℕ
difference acc [] ys = acc
difference acc (x ∷ xs) [] = acc
difference acc (x ∷ xs) (y ∷ ys) = difference (bit_or acc (bit_xor x y)) xs ys

unfoldable pub codes_equal : Text → Text → Bool
unfolding normalize_code len utf8 difference
codes_equal a b =
    let left = normalize_code a in
    let right = normalize_code b in
    if not (len left == len right) || is_empty left
    then false
    else difference 0 (utf8 left) (utf8 right) == 0

-- auth.rs.
unfoldable pub token_matches : Text → Text → Bool
unfolding len utf8 difference
token_matches provided expected =
    if not (len provided == len expected) || is_empty expected
    then false
    else difference 0 (utf8 provided) (utf8 expected) == 0

unfoldable pub looks_like_device_key : Text → Bool
unfolding trim starts_with
looks_like_device_key value = starts_with (trim value) (codes "pbk_")
