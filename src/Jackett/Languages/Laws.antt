-- ===== src/Jackett/Languages/Laws.antt =====
-- Laws of the languages of a release name.
use peanut_butter.Prelude.{
  ◌≡◌, refl, Bool, true, false, List, [], ◌∷◌, ◌++◌, ◌||◌, if◌then◌else◌, Bool-cases, inl, inr,
  arith,
}
use peanut_butter.Text.{Text, member, text_eq, text_eq_comm}
use peanut_butter.Jackett.Tokens.{push_code, has_any, padded}
use peanut_butter.Jackett.Languages.{
  push_codes, push_new, push_nordic, push_multi, language_codes, language_tokens,
}

-- No text stands in front of a copy of itself.
abbrev pub Distinct : List Text → Type 0
Distinct [] = Unit
Distinct (x ∷ xs) = (member xs x ≡ false) × Distinct xs

pub member-append :
    (xs : List Text) (y x : Text) → member (xs ++ y ∷ []) x ≡ member xs x || text_eq y x
unfolding member
member-append [] y x = ground arith
member-append (z ∷ xs) y x = ground (arith, member-append xs y x)

or_false : (a b : Bool) → (a || b) ≡ false → (a ≡ false) × (b ≡ false)
or_false true b h = cc
or_false false b h = (refl, h)

pub Distinct-append :
    (xs : List Text) (x : Text) → member xs x ≡ false → Distinct xs → Distinct (xs ++ x ∷ [])
unfolding member
Distinct-append [] x e h = (refl, tt)
Distinct-append (y ∷ xs) x e h =
    let (differ, absent) = or_false (text_eq y x) (member xs x) e in
    (rw (member-append xs x y, h.0, text_eq_comm x y, differ) refl, Distinct-append xs x absent h.1)

if-Distinct :
    (b : Bool) (xs ys : List Text) → Distinct xs → Distinct ys → Distinct (if b then xs else ys)
if-Distinct true xs ys h k = h
if-Distinct false xs ys h k = k

push_new-Distinct : (code : Text) (out : List Text) → Distinct out → Distinct (push_new code out)
unfolding push_new
push_new-Distinct code out h = elim (Bool-cases (member out code)) [
  | inl e ↦ rw e h
  | inr e ↦ rw e (Distinct-append out code e h)
]

push_code-Distinct :
    (h : Text) (out : List Text) (code : Text) (tokens : List Text)
    → Distinct out
    → Distinct (push_code h out code tokens)
unfolding push_code
push_code-Distinct h out code tokens d = elim (Bool-cases (member out code)) [
  | inl e ↦ rw e d
  | inr e ↦ rw e (if-Distinct (has_any h tokens) _ _ (Distinct-append out code e d) d)
]

push_codes-Distinct :
    (h : Text) (table : List (Text × List Text)) (out : List Text)
    → Distinct out
    → Distinct (push_codes h table out)
unfolding push_codes
push_codes-Distinct h [] out d = d
push_codes-Distinct h ((code, tokens) ∷ rest) out d =
    push_codes-Distinct h rest _ (push_code-Distinct h out code tokens d)

push_nordic-Distinct : (h : Text) (out : List Text) → Distinct out → Distinct (push_nordic h out)
unfolding push_nordic
push_nordic-Distinct h out d =
    if-Distinct _ _ _ (push_new-Distinct _ _ (push_new-Distinct _ _ (push_new-Distinct _ out d))) d

push_multi-Distinct : (h : Text) (out : List Text) → Distinct out → Distinct (push_multi h out)
unfolding push_multi
push_multi-Distinct h out d = if-Distinct _ _ _ (push_new-Distinct _ out d) d

-- A release name never states a language twice, whatever its tokens are.
pub language_codes-Distinct : (title : Text) → Distinct (language_codes title)
unfolding language_codes
language_codes-Distinct title =
    let h = padded title in
    push_multi-Distinct h _ (push_nordic-Distinct h _ (push_codes-Distinct h language_tokens [] tt))
