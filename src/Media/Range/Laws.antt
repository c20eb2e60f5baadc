-- ===== src/Media/Range/Laws.antt =====
-- Laws of `parse_range`: the ranges are inside the file, and the three forms are read as printed.
use peanut_butter.Prelude.{
  ℕ, ◌-◌, ◌<◌, ◌≤◌, ◌≡◌, refl, ◌∙◌, some, [], ◌∷◌, ◌++◌, arith, ◌==◌, ◌||◌, ◌>>=◌, true, min,
  >>=-eq-some, All, All-append, is_empty, false, Option-cases, inl, inr,
}
use peanut_butter.Text.{
  Text, codes, decimal, parse_u64, u64_max, trim, split, split_once, is_whitespace, is_ascii_digit,
  strip_prefix,
}
use peanut_butter.Text.Decimal.{
  decimal-Digits, decimal-Starts, parse_u64-decimal, trim-Free, split-Free, split_once-append, Free,
  Digits,
}
use peanut_butter.Media.Range.{parse_range, suffix_range, bounded_range, end_of, first_of, range_of}

-- Inside a file of this length, and not empty.
abbrev pub IsInside : ℕ → ℕ × ℕ → Type 0
IsInside len (a, b) = (a ≤ b) × (b < len)

suffix_range-IsInside :
    (suffix len : ℕ) (r : ℕ × ℕ) → 1 ≤ len → suffix_range suffix len ≡ some r → IsInside len r
unfolding suffix_range
suffix_range-IsInside suffix len r h e = ground arith

end_of-le : (end_s : Text) (len end : ℕ) → end_of end_s len ≡ some end → end ≤ len - 1
unfolding end_of
end_of-le [] len end e = ground arith
end_of-le (c ∷ s) len end e =
    let (n, _, e1) = >>=-eq-some (parse_u64 (c ∷ s)) (λ n. some (min n (len - 1))) e in ground arith

bounded_range-IsInside :
    (start : ℕ) (end_s : Text) (len : ℕ) (r : ℕ × ℕ)
    → bounded_range start end_s len ≡ some r
    → IsInside len r
unfolding bounded_range
bounded_range-IsInside start end_s len r e = elim (Option-cases (end_of end_s len)) [
  | inl h ↦ ground (arith, h)
  | inr (end, h) ↦ ground (arith, h, end_of-le end_s len end h)
]

range_of-IsInside :
    (start_s end_s : Text) (len : ℕ) (r : ℕ × ℕ)
    → 1 ≤ len
    → range_of start_s end_s len ≡ some r
    → IsInside len r
unfolding range_of
range_of-IsInside [] end_s len r h e =
    let (n, _, e1) = >>=-eq-some (parse_u64 end_s) (λ n. suffix_range n len) e in
    suffix_range-IsInside n len r h e1
range_of-IsInside (c ∷ s) end_s len r h e =
    let (n, _, e1) = >>=-eq-some (parse_u64 (c ∷ s)) (λ n. bounded_range n end_s len) e in
    bounded_range-IsInside n end_s len r e1

-- A range that is served lies inside the file, whatever the header says, if the file is not empty.
pub parse_range-IsInside :
    (header : Text) (len : ℕ) (r : ℕ × ℕ)
    → 1 ≤ len
    → parse_range header len ≡ some r
    → IsInside len r
unfolding parse_range
parse_range-IsInside header len r h e =
    let of_parts = λ (p : Text × Text). range_of p.0 p.1 len in
    let of_first = λ (first : Text). split_once (trim first) b'-' >>= of_parts in
    let of_ranges = λ (ranges : Text). first_of (split ranges (λ c. c == b',')) >>= of_first in
    let (ranges, _, e1) = >>=-eq-some (strip_prefix header (codes "bytes=")) of_ranges e in
    let (first, _, e2) = >>=-eq-some (first_of (split ranges (λ c. c == b','))) of_first e1 in
    let (parts, _, e3) = >>=-eq-some (split_once (trim first) b'-') of_parts e2 in
    range_of-IsInside parts.0 parts.1 len r h e3

-- The three forms of a range.
abbrev pub closed : ℕ → ℕ → Text
closed start end = codes "bytes=" ++ (decimal start ++ b'-' ∷ decimal end)

abbrev pub from : ℕ → Text
from start = codes "bytes=" ++ (decimal start ++ b'-' ∷ [])

abbrev pub suffix : ℕ → Text
suffix last = codes "bytes=" ++ (b'-' ∷ decimal last)

-- The characters of a printed range.
abbrev Plain : Text → Type 0
Plain = All (λ c. (is_ascii_digit c || c == b'-') ≡ true)

Plain-Free_comma : (s : Text) → Plain s → Free (λ c. c == b',') s
unfolding is_ascii_digit
Plain-Free_comma [] h = tt
Plain-Free_comma (c ∷ s) h = (ground arith, Plain-Free_comma s h.1)

Plain-Free_space : (s : Text) → Plain s → Free is_whitespace s
unfolding is_ascii_digit is_whitespace
Plain-Free_space [] h = tt
Plain-Free_space (c ∷ s) h = (ground arith, Plain-Free_space s h.1)

Digits-Plain : (s : Text) → Digits s → Plain s
Digits-Plain [] h = tt
Digits-Plain (c ∷ s) h = (ground (arith, h.0), Digits-Plain s h.1)

Digits-Free_dash : (s : Text) → Digits s → Free (λ c. c == b'-') s
unfolding is_ascii_digit
Digits-Free_dash [] h = tt
Digits-Free_dash (c ∷ s) h = (ground arith, Digits-Free_dash s h.1)

-- What is read of two parts without commas, dashes or spaces.
parse_range-range_of :
    (start_s end_s : Text) (len : ℕ)
    → Digits start_s
    → Digits end_s
    → parse_range (codes "bytes=" ++ (start_s ++ b'-' ∷ end_s)) len ≡ range_of start_s end_s len
unfolding parse_range strip_prefix first_of
parse_range-range_of start_s end_s len hs he =
    let plain : Plain (start_s ++ b'-' ∷ end_s) =
      All-append _ start_s (b'-' ∷ end_s) (Digits-Plain start_s hs) (refl, Digits-Plain end_s he) in
    rw
      (
        split-Free (start_s ++ b'-' ∷ end_s) (λ c. c == b',') (Plain-Free_comma _ plain),
        trim-Free (start_s ++ b'-' ∷ end_s) (Plain-Free_space _ plain),
        split_once-append start_s end_s b'-' (Digits-Free_dash start_s hs),
      )
      refl

is_empty-decimal : (n : ℕ) → is_empty (decimal n) ≡ false
is_empty-decimal n = let (c, s, e) = decimal-Starts n in rw e refl

bounded_closed :
    (start end len : ℕ)
    → start ≤ end
    → start < len
    → end ≤ u64_max
    → bounded_range start (decimal end) len ≡ some (start, min end (len - 1))
unfolding bounded_range end_of
bounded_closed start end len h k m =
    rw (is_empty-decimal end, parse_u64-decimal end m) (ground arith)

bounded_open : (start len : ℕ) → start < len → bounded_range start [] len ≡ some (start, len - 1)
unfolding bounded_range end_of
bounded_open start len k = ground arith

range_of_start :
    (start : ℕ) (end_s : Text) (len : ℕ)
    → start ≤ u64_max
    → range_of (decimal start) end_s len ≡ bounded_range start end_s len
unfolding range_of
range_of_start start end_s len m = rw (is_empty-decimal start, parse_u64-decimal start m) refl

range_of_suffix :
    (n len : ℕ) → 1 ≤ n → n ≤ u64_max → range_of [] (decimal n) len ≡ some (len - n, len - 1)
unfolding range_of suffix_range
range_of_suffix n len h m = rw (parse_u64-decimal n m) (ground arith)

-- The three forms of a range are read: from a byte to another, with an end past the file's cut off;
-- from a byte on; and the last bytes, with a number above the file's length standing for all of it.
-- The first byte must lie in the file, and the numbers must fit into a `u64`.
pub parse_range_forms :
    (a b n len : ℕ)
    → a ≤ b
    → a < len
    → b ≤ u64_max
    → 1 ≤ n
    → n ≤ u64_max
    → (parse_range (closed a b) len ≡ some (a, min b (len - 1)))
      × (parse_range (from a) len ≡ some (a, len - 1))
      × (parse_range (suffix n) len ≡ some (len - n, len - 1))
parse_range_forms a b n len h k mb one mn =
    let ma : a ≤ u64_max = omega arith in
    (
      parse_range-range_of (decimal a) (decimal b) len (decimal-Digits a) (decimal-Digits b)
          ∙ range_of_start a (decimal b) len ma
          ∙ bounded_closed a b len h k mb,
      parse_range-range_of (decimal a) [] len (decimal-Digits a) tt
          ∙ range_of_start a [] len ma
          ∙ bounded_open a len k,
      parse_range-range_of [] (decimal n) len tt (decimal-Digits n) ∙ range_of_suffix n len one mn,
    )
