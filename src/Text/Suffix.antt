-- ===== src/Text/Suffix.antt =====
-- Ends of texts: what the operations that drop a part leave.
use peanut_butter.Prelude.{
  ℕ, suc, ◌≤◌, ◌≡◌, refl, sym, ap, subst, ◌∙◌, Bool, Option, none, some, [], ◌∷◌, ◌++◌,
  if◌then◌else◌, length, length-append, arith, append_assoc, drop_while, Bool-cases, inl, inr, ◌==◌,
  ◌⊎◌,
}
use mathlib.Core.Option.{some-injective}
use peanut_butter.Text.Defs.{Text, after_first, strip_prefix}

-- The text ends with this one.
abbrev pub EndsWith : Text → Text → Type 0
EndsWith s t = (front : Text) × (s ≡ front ++ t)

pub EndsWith-refl : (s : Text) → EndsWith s s
EndsWith-refl s = ([], refl)

pub EndsWith-trans : (s t u : Text) → EndsWith s t → EndsWith t u → EndsWith s u
EndsWith-trans s t u (f, e) (g, k) = (f ++ g, e ∙ ap (λ x. f ++ x) k ∙ sym (append_assoc f g u))

pub EndsWith-cons : (c : ℕ) (s t : Text) → EndsWith s t → EndsWith (c ∷ s) t
EndsWith-cons c s t (f, e) = (c ∷ f, ap (λ x. c ∷ x) e)

-- An end is the text itself or shorter.
pub EndsWith-cases : (s t : Text) → EndsWith s t → (t ≡ s) ⊎ (suc (length t) ≤ length s)
EndsWith-cases s t ([], e) = inl (sym e)
EndsWith-cases s t (c ∷ f, e) =
    let size : length s ≡ length (c ∷ (f ++ t)) = ap length e in
    inr (omega (arith, length-append f t))

pub drop_while-EndsWith : (p : ℕ → Bool) (s : Text) → EndsWith s (drop_while p s)
drop_while-EndsWith p [] = ([], refl)
drop_while-EndsWith p (c ∷ s) = elim (Bool-cases (p c)) [
  | inl e ↦ rw e (EndsWith-cons c s _ (drop_while-EndsWith p s))
  | inr e ↦ rw e ([], refl)
]

pub strip_prefix-EndsWith : (s t r : Text) → strip_prefix s t ≡ some r → EndsWith s r
unfolding strip_prefix
strip_prefix-EndsWith s [] r e = ([], some-injective s r e)
strip_prefix-EndsWith [] (d ∷ t) r e = cc
strip_prefix-EndsWith (c ∷ s) (d ∷ t) r e = elim (Bool-cases (c == d)) [
  | inl k ↦ EndsWith-cons c s r (
      strip_prefix-EndsWith s t r
        (subst (λ (b : Bool). (if b then strip_prefix s t else none) ≡ some r) k e))
  | inr k ↦ cc
]

-- What a first result or else a second one is.
or_else-EndsWith :
    (s : Text) (c : ℕ) (first later : Option Text) (r : Text)
    → ((a : Text) → first ≡ some a → EndsWith (c ∷ s) a)
    → ((a : Text) → later ≡ some a → EndsWith s a)
    → elim first [ some a ↦ some a | none ↦ later ] ≡ some r
    → EndsWith (c ∷ s) r
or_else-EndsWith s c none later r f g e = EndsWith-cons c s r (g r e)
or_else-EndsWith s c (some a) later r f g e = f r e

pub after_first-EndsWith : (s t r : Text) → after_first s t ≡ some r → EndsWith s r
unfolding after_first
after_first-EndsWith [] t r e = strip_prefix-EndsWith [] t r e
after_first-EndsWith (c ∷ s) t r e =
    or_else-EndsWith s c (strip_prefix (c ∷ s) t) (after_first s t) r
      (λ a k. strip_prefix-EndsWith (c ∷ s) t a k) (λ a k. after_first-EndsWith s t a k) e
