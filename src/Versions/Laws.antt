-- ===== src/Versions/Laws.antt =====
-- Printed tags are read back, and are compared by their numbers.
use peanut_butter.Prelude.{
  ℕ, ◌≤◌, ◌<◌, ◌≡◌, refl, sym, ap, subst, ◌⊎◌, ◌↔◌, Bool, true, false, Option, none, some, [], ◌∷◌,
  ◌++◌, ◌==◌, is_some, arith, All-append, drop_while, append-nil,
}
use peanut_butter.Text.{Text, is_ascii_digit, is_whitespace, split, split_once, u64_max, decimal}
use peanut_butter.Text.Decimal.{
  Free, Digits, decimal-Digits, decimal-Starts, parse_u64-decimal, trim-Free, split-Free,
  split_once-append,
}
use peanut_butter.Versions.{
  Version, core_of, version_of, next_part, parse_version, is_above, newer_of, is_newer,
}

-- A release, with the label of a pre-release.
pub record Release : Type 0 where
  pub major : ℕ
  pub minor : ℕ
  pub patch : ℕ
  pub label : Option Text

abbrev pub core : Release → Text
core r = decimal r.major ++ b'.' ∷ (decimal r.minor ++ b'.' ∷ decimal r.patch)

abbrev pub tail_of : Option Text → Text
tail_of none = []
tail_of (some l) = b'-' ∷ l

-- Its tag: "v1.2.3" or "v1.2.3-rc1".
abbrev pub tag : Release → Text
tag r = b'v' ∷ (core r ++ tail_of r.label)

-- The numbers fit into a `u64`, and the label holds no white space.
abbrev pub IsRelease : Release → Type 0
IsRelease r =
    (r.major ≤ u64_max)
    × (r.minor ≤ u64_max)
    × (r.patch ≤ u64_max)
    × Free is_whitespace (tail_of r.label)

-- A later one: the first number that differs is greater, or it is the release of a pre-release.
abbrev pub IsLater : Release → Release → Type 0
IsLater a b =
    (b.major < a.major)
    ⊎ ((a.major ≡ b.major)
        × ((b.minor < a.minor)
            ⊎ ((a.minor ≡ b.minor)
                × ((b.patch < a.patch)
                    ⊎ ((a.patch ≡ b.patch)
                        × (is_some a.label ≡ false)
                        × (is_some b.label ≡ true))))))

split-append :
    (s t : Text) (d : ℕ) (sep : ℕ → Bool)
    → Free sep s
    → sep d ≡ true
    → split (s ++ d ∷ t) sep ≡ s ∷ split t sep
unfolding split
split-append [] t d sep h k = rw k refl
split-append (c ∷ s) t d sep h k = rw (h.0, split-append s t d sep h.1 k) refl

split_once-Free : (s : Text) (sep : ℕ) → Free (λ c. c == sep) s → split_once s sep ≡ none
unfolding split_once
split_once-Free [] sep h = refl
split_once-Free (c ∷ s) sep h = rw (h.0, split_once-Free s sep h.1) refl

-- What the characters of the numbers are not.
module _ (p : ℕ → Bool) (digits : (c : ℕ) → is_ascii_digit c ≡ true → p c ≡ false) where
  Digits-Free : (s : Text) → Digits s → Free p s
  Digits-Free [] h = tt
  Digits-Free (c ∷ s) h = (digits c h.0, Digits-Free s h.1)

  decimal-Free : (n : ℕ) → Free p (decimal n)
  decimal-Free n = Digits-Free (decimal n) (decimal-Digits n)

  core-Free : (r : Release) → p b'.' ≡ false → Free p (core r)
  core-Free r dot =
      All-append _ (decimal r.major) (b'.' ∷ (decimal r.minor ++ b'.' ∷ decimal r.patch))
        (decimal-Free r.major)
        (
          dot,
          All-append _ (decimal r.minor) (b'.' ∷ decimal r.patch) (decimal-Free r.minor)
              (dot, decimal-Free r.patch),
        )

digit_no_dot : (c : ℕ) → is_ascii_digit c ≡ true → (c == b'.') ≡ false
unfolding is_ascii_digit
digit_no_dot c h = ground arith

digit_no_dash : (c : ℕ) → is_ascii_digit c ≡ true → (c == b'-') ≡ false
unfolding is_ascii_digit
digit_no_dash c h = ground arith

digit_no_v : (c : ℕ) → is_ascii_digit c ≡ true → (c == b'v') ≡ false
unfolding is_ascii_digit
digit_no_v c h = ground arith

digit_no_space : (c : ℕ) → is_ascii_digit c ≡ true → is_whitespace c ≡ false
unfolding is_ascii_digit is_whitespace
digit_no_space c h = ground arith

split-core :
    (r : Release)
    → split (core r) (λ c. c == b'.') ≡ decimal r.major ∷ decimal r.minor ∷ decimal r.patch ∷ []
split-core r =
    rw
      (
        split-append (decimal r.major) (decimal r.minor ++ b'.' ∷ decimal r.patch) b'.'
            (λ c. c == b'.') (decimal-Free _ digit_no_dot r.major) refl,
        split-append (decimal r.minor) (decimal r.patch) b'.' (λ c. c == b'.')
            (decimal-Free _ digit_no_dot r.minor) refl,
        split-Free (decimal r.patch) (λ c. c == b'.') (decimal-Free _ digit_no_dot r.patch),
      )
      refl

abbrev version : Release → Version
version r = record {
  major = r.major;
  minor = r.minor;
  patch = r.patch;
  is_prerelease = is_some r.label;
}

version_of-core :
    (r : Release) → IsRelease r → version_of (core r) (is_some r.label) ≡ some (version r)
unfolding version_of next_part
version_of-core r (h, k, l, _) =
    rw
      (
        split-core r,
        parse_u64-decimal r.major h,
        parse_u64-decimal r.minor k,
        parse_u64-decimal r.patch l,
      )
      refl

core_of-plain : (s : Text) → Free (λ c. c == b'-') s → core_of s ≡ (s, false)
unfolding core_of
core_of-plain s h = rw (core_of, split_once-Free s b'-' h) refl

core_of-labelled : (s l : Text) → Free (λ c. c == b'-') s → core_of (s ++ b'-' ∷ l) ≡ (s, true)
unfolding core_of
core_of-labelled s l h = rw (core_of, split_once-append s l b'-' h) refl

core_of-core : (r : Release) (o : Option Text) → core_of (core r ++ tail_of o) ≡ (core r, is_some o)
core_of-core r none =
    subst (λ s. core_of s ≡ (core r, false)) (sym (append-nil (core r)))
      (core_of-plain (core r) (core-Free _ digit_no_dash r refl))
core_of-core r (some l) = core_of-labelled (core r) l (core-Free _ digit_no_dash r refl)

drop_while-started :
    (p : ℕ → Bool) (s t : Text) (c : ℕ) (s' : Text)
    → s ≡ c ∷ s'
    → Free p s
    → drop_while p (s ++ t) ≡ s ++ t
drop_while-started p [] t c s' e h = cc
drop_while-started p (d ∷ s) t c s' e h = rw (h.0) refl

-- The leading v is taken off, and no more.
drop_v-core :
    (r : Release) (t : Text) → drop_while (λ c. c == b'v') (b'v' ∷ (core r ++ t)) ≡ core r ++ t
drop_v-core r t =
    let (c, s', e) = decimal-Starts r.major in
    let rest = b'.' ∷ (decimal r.minor ++ b'.' ∷ decimal r.patch) in
    drop_while-started _ (core r) t c (s' ++ rest) (ap (λ s. s ++ rest) e)
      (core-Free _ digit_no_v r refl)

parse_version-tag : (r : Release) → IsRelease r → parse_version (tag r) ≡ some (version r)
unfolding parse_version
parse_version-tag r h =
    let free : Free is_whitespace (tag r) =
      (refl, All-append _ (core r) (tail_of r.label) (core-Free _ digit_no_space r refl) h.3) in
    rw (trim-Free (tag r) free, drop_v-core r (tail_of r.label), core_of-core r r.label)
      (version_of-core r h)

is_above_iff : (a b : Release) → (is_above (version a) (version b) ≡ true) ↔ IsLater a b
unfolding is_above
is_above_iff a b = ground arith

-- A release whose tag is a `v`, three numbers and perhaps a label is taken for newer than another such
-- release exactly if the first number in which their tags differ is greater, or the numbers are equal
-- and only the other one has a label. The numbers fit into a `u64`, and the labels hold no white space.
pub is_newer_iff :
    (a b : Release) → IsRelease a → IsRelease b → (is_newer (tag a) (tag b) ≡ true) ↔ IsLater a b
unfolding is_newer newer_of
is_newer_iff a b h k = rw (parse_version-tag a h, parse_version-tag b k) (is_above_iff a b)
