-- ===== src/Subtitles/Laws.antt =====
-- What an IMDb id is made into.
use peanut_butter.Prelude.{
  ℕ, ◌≡◌, refl, sym, ◌∙◌, subst, Bool, true, false, Option, none, some, [], ◌∷◌, ◌||◌, ◌&&◌, ◌==◌,
  not, is_empty, all, Bool-cases, inl, inr, arith,
}
use mathlib.Core.Option.{some-injective}
use peanut_butter.Text.{Text, trim, is_ascii_digit, is_whitespace}
use peanut_butter.Text.Decimal.{Free, trim-Free}
use peanut_butter.Subtitles.{trim_pairs, with_digits, normalize_imdb}

-- "tt" and digits, of which there is at least one.
abbrev pub IsImdb : Text → Type 0
IsImdb id =
    (digits : Text) × (id ≡ b't' ∷ b't' ∷ digits)
    × (is_empty digits ≡ false)
    × (all is_ascii_digit digits ≡ true)

and_parts : (a b : Bool) → (a && b) ≡ true → (a ≡ true) × (b ≡ true)
and_parts true b h = (refl, h)
and_parts false b h = cc

no_space : (c : ℕ) → is_ascii_digit c ≡ true → is_whitespace c ≡ false
unfolding is_ascii_digit is_whitespace
no_space c h = ground arith

or_parts : (a b : Bool) → (a || not b) ≡ false → (a ≡ false) × (b ≡ true)
or_parts true b h = cc
or_parts false true h = (refl, refl)
or_parts false false h = cc

digits-Free : (digits : Text) → all is_ascii_digit digits ≡ true → Free is_whitespace digits
digits-Free [] h = tt
digits-Free (c ∷ digits) h =
    let (digit, rest) = and_parts (is_ascii_digit c) _ h in
    (no_space c digit, digits-Free digits rest)

no_t : (c t : ℕ) → is_ascii_digit c ≡ true → is_ascii_digit t ≡ false → (c == t) ≡ false
unfolding is_ascii_digit
no_t c t h k = ground arith

trim_pairs-digits :
    (t : ℕ) (digits : Text)
    → is_ascii_digit t ≡ false
    → all is_ascii_digit digits ≡ true
    → trim_pairs t digits ≡ digits
unfolding trim_pairs
trim_pairs-digits t [] k h = refl
trim_pairs-digits t (a ∷ []) k h = refl
trim_pairs-digits t (a ∷ b ∷ s) k h =
    let (digit, rest) = and_parts (is_ascii_digit a) _ h in rw (no_t a t digit k) refl

trim_pairs-pair : (s : Text) → trim_pairs b't' (b't' ∷ b't' ∷ s) ≡ trim_pairs b't' s
unfolding trim_pairs
trim_pairs-pair s = refl

with_digits-IsImdb : (digits id : Text) → with_digits digits ≡ some id → IsImdb id
unfolding with_digits
with_digits-IsImdb digits id e =
    elim (Bool-cases (is_empty digits || not (all is_ascii_digit digits))) [
      | inl k ↦
          let no : ◌≡◌ {A = Option Text} none (some id) = rw (with_digits, k) at e in absurd cc
      | inr k ↦
          let same : b't' ∷ b't' ∷ digits ≡ id =
            some-injective (b't' ∷ b't' ∷ digits) id (rw (with_digits, k) at e) in
          let (some_digit, digit) = or_parts (is_empty digits) (all is_ascii_digit digits) k in
          (digits, sym same, some_digit, digit)
    ]

normalize_digits :
    (digits : Text)
    → is_empty digits ≡ false
    → all is_ascii_digit digits ≡ true
    → normalize_imdb (some (b't' ∷ b't' ∷ digits)) ≡ some (b't' ∷ b't' ∷ digits)
unfolding normalize_imdb with_digits
normalize_digits digits some_digit h =
    let clean : trim (b't' ∷ b't' ∷ digits) ≡ b't' ∷ b't' ∷ digits =
      trim-Free (b't' ∷ b't' ∷ digits) (refl, (refl, digits-Free digits h)) in
    let lower : trim_pairs b't' (b't' ∷ b't' ∷ digits) ≡ digits =
      trim_pairs-pair digits ∙ trim_pairs-digits b't' digits refl h in
    let upper : trim_pairs b'T' digits ≡ digits = trim_pairs-digits b'T' digits refl h in
    rw (normalize_imdb, clean, lower, upper, with_digits, some_digit, h) refl

normalize-IsImdb : (id : Text) → IsImdb id → normalize_imdb (some id) ≡ some id
normalize-IsImdb id (digits, e, some_digit, h) =
    subst (λ t. normalize_imdb (some t) ≡ some t) (sym e) (normalize_digits digits some_digit h)

-- An id that was made is "tt" and digits, and is made into itself.
abbrev pub IsNormal : Option Text → Type 0
IsNormal none = Unit
IsNormal (some id) = IsImdb id × (normalize_imdb (some id) ≡ some id)

made-IsNormal : (o : Option Text) → ((id : Text) → o ≡ some id → IsImdb id) → IsNormal o
made-IsNormal none f = tt
made-IsNormal (some id) f = (f id refl, normalize-IsImdb id (f id refl))

value_of : (raw id : Text) → normalize_imdb (some raw) ≡ some id → IsImdb id
unfolding normalize_imdb
value_of raw id e = elim (Bool-cases (is_empty (trim raw))) [
  | inl k ↦ let no : ◌≡◌ {A = Option Text} none (some id) = rw (normalize_imdb, k) at e in absurd cc
  | inr k ↦
      with_digits-IsImdb (trim_pairs b'T' (trim_pairs b't' (trim raw))) id
        (rw (normalize_imdb, k) at e)
]

-- Whatever is given, an IMDb id that comes of it is "tt" and one or more digits, and giving it again
-- changes nothing.
pub normalize_imdb_lem : (raw : Option Text) → IsNormal (normalize_imdb raw)
unfolding normalize_imdb
normalize_imdb_lem none = tt
normalize_imdb_lem (some raw) =
    made-IsNormal (normalize_imdb (some raw)) (λ id e. value_of raw id e)
