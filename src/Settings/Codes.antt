-- ===== src/Settings/Codes.antt =====
-- What the list of preferred languages holds.
use mathlib.Core.List.{reverse, reverse-cons}
use peanut_butter.Prelude.{
  ℕ, ◌≡◌, refl, sym, subst, Bool, true, false, List, [], ◌∷◌, ◌||◌, Bool-cases, inl, inr, All,
  All-append, is_empty, arith, drop_while,
}
use peanut_butter.Text.{
  Text, codes, text_eq, trim, to_ascii_lowercase, to_ascii_lowercase_idem, ascii_lower, member,
  join, split, cons_head,
}
use peanut_butter.Text.Decimal.{Free}
use peanut_butter.Jackett.Languages.Laws.{Distinct, Distinct-append}
use peanut_butter.Settings.Languages.{
  push_language, push_languages, parse_language_codes, is_list_separator,
}

-- A language of a list: a text in lower case without a separator, not empty, and not the word for
-- all of them.
pub record IsCode (c : Text) : Type 0 where
  pub some_text : is_empty c ≡ false
  pub not_all : text_eq c (codes "all") ≡ false
  pub free : Free is_list_separator c
  pub lower : to_ascii_lowercase c ≡ c

abbrev pub IsCodes : List Text → Type 0
IsCodes cs = All IsCode cs × Distinct cs

-- The text of a list of languages.
abbrev pub IsLanguageList : Text → Type 0
IsLanguageList t = (cs : List Text) × (t ≡ join cs (codes ",")) × IsCodes cs

-- Trimming and lower case bring no separator in.
module _ (p : ℕ → Bool) where
  drop_while-Free : (q : ℕ → Bool) (s : Text) → Free p s → Free p (drop_while q s)
  drop_while-Free q [] h = tt
  drop_while-Free q (c ∷ s) h = elim (Bool-cases (q c)) [
    | inl e ↦ rw e (drop_while-Free q s h.1)
    | inr e ↦ rw e h
  ]

  reverse-Free : (s : Text) → Free p s → Free p (reverse s)
  reverse-Free [] h = tt
  reverse-Free (c ∷ s) h =
      subst (Free p) (sym (reverse-cons c s))
        (All-append _ (reverse s) (c ∷ []) (reverse-Free s h.1) (h.0, tt))

  trim-keeps_Free : (s : Text) → Free p s → Free p (trim s)
  unfolding trim
  trim-keeps_Free s h =
      reverse-Free _ (drop_while-Free _ _ (reverse-Free _ (drop_while-Free _ s h)))

  -- A part of a text that is split holds no separator.
  cons_head-Free :
      (c : ℕ) (ps : List Text) → p c ≡ false → All (Free p) ps → All (Free p) (cons_head c ps)
  cons_head-Free c [] e h = ((e, tt), tt)
  cons_head-Free c (q ∷ ps) e h = ((e, h.0), h.1)

  split-All_Free : (s : Text) → All (Free p) (split s p)
  unfolding split
  split-All_Free [] = (tt, tt)
  split-All_Free (c ∷ s) = elim (Bool-cases (p c)) [
    | inl e ↦ rw (split, e) (tt, split-All_Free s)
    | inr e ↦ rw (split, e) (cons_head-Free c (split s p) e (split-All_Free s))
  ]

lower_separator : (c : ℕ) → is_list_separator c ≡ false → is_list_separator (ascii_lower c) ≡ false
unfolding is_list_separator ascii_lower
lower_separator c h = ground arith

to_ascii_lowercase-Free :
    (s : Text) → Free is_list_separator s → Free is_list_separator (to_ascii_lowercase s)
unfolding to_ascii_lowercase
to_ascii_lowercase-Free [] h = tt
to_ascii_lowercase-Free (c ∷ s) h = (lower_separator c h.0, to_ascii_lowercase-Free s h.1)

or_false3 : (a b c : Bool) → (a || b || c) ≡ false → (a ≡ false) × (b ≡ false) × (c ≡ false)
or_false3 true b c h = cc
or_false3 false true c h = cc
or_false3 false false c h = (refl, refl, h)

push_language-IsCodes :
    (out : List Text) (part : Text)
    → Free is_list_separator part
    → IsCodes out
    → IsCodes (push_language out part)
unfolding push_language
push_language-IsCodes out part k (h, d) =
    let code = to_ascii_lowercase (trim part) in
    elim (Bool-cases (is_empty code || text_eq code (codes "all") || member out code)) [
      | inl e ↦ rw (push_language, e) (h, d)
      | inr e ↦
          let (some_text, not_all, absent) = or_false3 (is_empty code) _ _ e in
          let is_code : IsCode code = record {
            some_text = some_text;
            not_all = not_all;
            free = to_ascii_lowercase-Free (trim part) (trim-keeps_Free is_list_separator part k);
            lower = to_ascii_lowercase_idem (trim part);
          } in
          rw (push_language, e)
            (All-append IsCode out (code ∷ []) h (is_code, tt), Distinct-append out code absent d)
    ]

push_languages-IsCodes :
    (out parts : List Text)
    → All (Free is_list_separator) parts
    → IsCodes out
    → IsCodes (push_languages out parts)
unfolding push_languages
push_languages-IsCodes out [] k h = h
push_languages-IsCodes out (part ∷ parts) k h =
    push_languages-IsCodes (push_language out part) parts k.1 (push_language-IsCodes out part k.0 h)

pub parse_language_codes-IsCodes : (raw : Text) → IsCodes (parse_language_codes raw)
unfolding parse_language_codes
parse_language_codes-IsCodes raw =
    push_languages-IsCodes [] (split raw is_list_separator) (split-All_Free is_list_separator raw)
      (tt, tt)
