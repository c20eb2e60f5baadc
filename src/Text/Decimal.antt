-- ===== src/Text/Decimal.antt =====
-- Printing a number in decimal and parsing it again; texts without a class of characters.
use mathlib.Core.List.{reverse, reverse-cons, reverse-reverse}
use peanut_butter.Prelude.{
  ℕ, zero, suc, ◌+◌, ◌/◌, ◌%◌, ◌^◌, ◌<◌, ◌≤◌, ◌≡◌, refl, Bool, true, false, some, [], ◌∷◌, ◌++◌,
  arith, All, All-append, drop_while, subst, sym, ◌==◌, ltb, Bool-cases, inl, inr, ◌∙◌,
}
use peanut_butter.Text.Defs.{Text, is_ascii_digit, is_whitespace, trim, split, split_once}
use peanut_butter.Text.Numbers.{parse_digits, parse_u64, digits_before, decimal, u64_max}

abbrev pub Digits : Text → Type 0
Digits = All (λ c. is_ascii_digit c ≡ true)

-- No character of the text belongs to the class.
abbrev pub Free : (ℕ → Bool) → Text → Type 0
Free p = All (λ c. p c ≡ false)

digits_before-Digits : (fuel n : ℕ) (out : Text) → Digits out → Digits (digits_before fuel n out)
unfolding digits_before is_ascii_digit
digits_before-Digits zero n out h = h
digits_before-Digits (suc fuel) n out h =
    ground (arith, digits_before-Digits fuel (n / 10) ((b'0' + n % 10) ∷ out))

pub decimal-Digits : (n : ℕ) → Digits (decimal n)
unfolding decimal
decimal-Digits n = digits_before-Digits 20 n [] tt

-- The print is not empty.
abbrev Starts : Text → Type 0
Starts s = (c : ℕ) × (t : Text) × (s ≡ c ∷ t)

digits_before-Starts : (fuel n : ℕ) (out : Text) → Starts out → Starts (digits_before fuel n out)
unfolding digits_before
digits_before-Starts zero n out h = h
digits_before-Starts (suc fuel) n out h = elim (Bool-cases (ltb n 10)) [
  | inl e ↦ (b'0' + n, out, (rw e refl))
  | inr e ↦ rw e (digits_before-Starts fuel (n / 10) _ (b'0' + n % 10, out, refl))
]

last-Starts : (fuel n : ℕ) (out : Text) → Starts (digits_before (suc fuel) n out)
unfolding digits_before
last-Starts fuel n out = elim (Bool-cases (ltb n 10)) [
  | inl e ↦ (b'0' + n, out, (rw e refl))
  | inr e ↦ rw e (digits_before-Starts fuel (n / 10) _ (b'0' + n % 10, out, refl))
]

pub decimal-Starts : (n : ℕ) → Starts (decimal n)
unfolding decimal
decimal-Starts n = last-Starts 19 n []

parse_digits-digits_before :
    (fuel n : ℕ) (out : Text)
    → n < 10 ^ suc fuel
    → n ≤ u64_max
    → parse_digits (digits_before (suc fuel) n out) 0 ≡ parse_digits out n
unfolding parse_digits digits_before is_ascii_digit
parse_digits-digits_before zero n out small h = ground arith
parse_digits-digits_before (suc fuel) n out small h =
    ground (arith, parse_digits-digits_before fuel (n / 10) ((b'0' + n % 10) ∷ out))

parse_digits-nil : (n : ℕ) → parse_digits [] n ≡ some n
unfolding parse_digits
parse_digits-nil n = refl

parse_u64_Digits :
    (c : ℕ) (s : Text) → is_ascii_digit c ≡ true → parse_u64 (c ∷ s) ≡ parse_digits (c ∷ s) 0
unfolding parse_u64 is_ascii_digit
parse_u64_Digits c [] h = ground arith
parse_u64_Digits c (d ∷ s) h = ground arith

parse_digits-decimal : (n : ℕ) → n ≤ u64_max → parse_digits (decimal n) 0 ≡ some n
unfolding decimal
parse_digits-decimal n h = parse_digits-digits_before 19 n [] (omega arith) h ∙ parse_digits-nil n

pub parse_u64-decimal : (n : ℕ) → n ≤ u64_max → parse_u64 (decimal n) ≡ some n
parse_u64-decimal n h =
    let (c, s, e) = decimal-Starts n in
    let digits : Digits (c ∷ s) = subst Digits e (decimal-Digits n) in
    rw (e, parse_u64_Digits c s digits.0, sym e) (parse_digits-decimal n h)

-- Texts that a class does not meet.
drop_while-Free : (p : ℕ → Bool) (s : Text) → Free p s → drop_while p s ≡ s
drop_while-Free p [] h = refl
drop_while-Free p (c ∷ s) h = rw h.0 refl

Free-reverse : (p : ℕ → Bool) (s : Text) → Free p s → Free p (reverse s)
Free-reverse p [] h = tt
Free-reverse p (c ∷ s) h =
    subst (Free p) (sym (reverse-cons c s))
      (All-append _ (reverse s) (c ∷ []) (Free-reverse p s h.1) (h.0, tt))

pub trim-Free : (s : Text) → Free is_whitespace s → trim s ≡ s
unfolding trim
trim-Free s h =
    rw
      (
        drop_while-Free is_whitespace s h,
        drop_while-Free is_whitespace (reverse s) (Free-reverse is_whitespace s h),
      )
      (reverse-reverse s)

pub split-Free : (s : Text) (sep : ℕ → Bool) → Free sep s → split s sep ≡ s ∷ []
unfolding split
split-Free [] sep h = refl
split-Free (c ∷ s) sep h = rw (h.0, split-Free s sep h.1) refl

pub split_once-append :
    (s t : Text) (sep : ℕ) → Free (λ c. c == sep) s → split_once (s ++ sep ∷ t) sep ≡ some (s, t)
unfolding split_once
split_once-append [] t sep h = ground arith
split_once-append (c ∷ s) t sep h = rw (h.0, split_once-append s t sep h.1) refl
