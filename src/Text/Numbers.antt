-- ===== src/Text/Numbers.antt =====
-- `str::parse::<u64>` and the decimal print of a number.
use peanut_butter.Prelude.{
  ℕ, zero, suc, ◌+◌, ◌-◌, ◌*◌, ◌/◌, ◌%◌, ◌^◌, ◌≤◌, ◌≡◌, refl, Option, none, some, [], ◌∷◌, ltb, ℤ,
  pos, neg, negsuc, ◌>>=◌, ◌==◌, if◌then◌else◌, arith,
}
use peanut_butter.Text.Defs.{Text, is_ascii_digit, codes}

abbrev pub u64_max : ℕ
u64_max = 2 ^ 64 - 1

-- The digits of a `u64`: none at a byte that is no digit and at an overflow.
unfoldable pub parse_digits : Text → ℕ → Option ℕ
unfolding is_ascii_digit
parse_digits [] n = some n
parse_digits (c ∷ s) n =
    let m = n * 10 + (c - b'0') in
    let rest = parse_digits s m in
    if is_ascii_digit c then if ltb u64_max m then none else rest else none

-- `parse::<u64>`: an empty text and a lone `+` fail, one leading `+` is accepted.
unfoldable pub parse_u64 : Text → Option ℕ
unfolding parse_digits
parse_u64 [] = none
parse_u64 (c ∷ []) = if c == b'+' then none else parse_digits (c ∷ []) 0
parse_u64 (c ∷ d ∷ s) = if c == b'+' then parse_digits (d ∷ s) 0 else parse_digits (c ∷ d ∷ s) 0

-- `parse::<i32>`, with an optional sign.
unfoldable pub parse_i32_part : Text → ℕ → Option ℕ
unfolding parse_digits
parse_i32_part [] most = none
parse_i32_part (c ∷ s) most = do n ← parse_digits (c ∷ s) 0; if ltb most n then none else some n

unfoldable pub parse_i32 : Text → Option ℤ
unfolding parse_i32_part
parse_i32 [] = none
parse_i32 (c ∷ s) =
    let negative = (do n ← parse_i32_part s (2 ^ 31); some (neg n)) in
    let positive = (do
      n ← parse_i32_part (if c == b'+' then s else c ∷ s) (2 ^ 31 - 1)
      some (pos n)) in
    if c == b'-' then negative else positive

pub parse_digits_bound :
    (s : Text) (n r : ℕ) → n ≤ u64_max → parse_digits s n ≡ some r → r ≤ u64_max
unfolding parse_digits
parse_digits_bound [] n r h e = ground arith
parse_digits_bound (c ∷ s) n r h e = ground (arith, parse_digits_bound s (n * 10 + (c - b'0')) r)

pub parse_u64_bound : (s : Text) (r : ℕ) → parse_u64 s ≡ some r → r ≤ u64_max
unfolding parse_u64
parse_u64_bound [] r e = cc
parse_u64_bound (c ∷ []) r e = ground (arith, parse_digits_bound (c ∷ []) 0 r)
parse_u64_bound (c ∷ d ∷ s) r e =
    ground (arith, parse_digits_bound (c ∷ d ∷ s) 0 r, parse_digits_bound (d ∷ s) 0 r)

-- The decimal digits of n before `out`; a number below 10 ^ fuel is printed whole.
unfoldable pub digits_before : ℕ → ℕ → Text → Text
digits_before zero n out = out
digits_before (suc fuel) n out =
    let longer = digits_before fuel (n / 10) ((b'0' + n % 10) ∷ out) in
    if ltb n 10 then (b'0' + n) ∷ out else longer

-- `format!("{n}")` of a `u64`, which has at most 20 digits.
unfoldable pub decimal : ℕ → Text
unfolding digits_before
decimal n = digits_before 20 n []

decimal_max : decimal u64_max ≡ codes "18446744073709551615"
unfolding decimal
decimal_max = refl

-- `format!("{n}")` of an `i32`.
unfoldable pub show_i32 : ℤ → Text
unfolding decimal
show_i32 (pos n) = decimal n
show_i32 (negsuc n) = b'-' ∷ decimal (suc n)
