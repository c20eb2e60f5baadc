-- ===== src/Text/Laws.antt =====
-- Laws of the text operations.
use peanut_butter.Prelude.{
  ℕ, ◌<◌, ◌≡◌, refl, ◌↔◌, ◌≢◌, true, false, [], ◌∷◌, arith, All, Bool-cases, inl, inr,
}
use peanut_butter.Text.Defs.{Text, text_eq, ascii_lower, to_ascii_lowercase, utf8}

pub text_eq_sound : (s t : Text) → text_eq s t ≡ true → s ≡ t
unfolding text_eq
text_eq_sound [] [] h = refl
text_eq_sound [] (d ∷ t) h = cc
text_eq_sound (c ∷ s) [] h = cc
text_eq_sound (c ∷ s) (d ∷ t) h = ground (arith, text_eq_sound s t)

pub text_eq_refl : (s : Text) → text_eq s s ≡ true
unfolding text_eq
text_eq_refl [] = refl
text_eq_refl (c ∷ s) = ground (arith, text_eq_refl s)

pub text_eq_iff : (s t : Text) → (text_eq s t ≡ true) ↔ (s ≡ t)
text_eq_iff s t = (text_eq_sound s t, λ e. rw e (text_eq_refl t))

pub text_eq_ne : (s t : Text) → s ≢ t → text_eq s t ≡ false
text_eq_ne s t h = elim (Bool-cases (text_eq s t)) [
  | inl e ↦ absurd (h (text_eq_sound s t e))
  | inr e ↦ e
]

pub text_eq_comm : (s t : Text) → text_eq s t ≡ text_eq t s
unfolding text_eq
text_eq_comm [] [] = refl
text_eq_comm [] (d ∷ t) = refl
text_eq_comm (c ∷ s) [] = refl
text_eq_comm (c ∷ s) (d ∷ t) = ground (arith, text_eq_comm s t)

pub ascii_lower_idem : (c : ℕ) → ascii_lower (ascii_lower c) ≡ ascii_lower c
unfolding ascii_lower
ascii_lower_idem c = ground arith

pub to_ascii_lowercase_idem :
    (s : Text) → to_ascii_lowercase (to_ascii_lowercase s) ≡ to_ascii_lowercase s
unfolding to_ascii_lowercase
to_ascii_lowercase_idem [] = refl
to_ascii_lowercase_idem (c ∷ s) = cc (ascii_lower_idem c, to_ascii_lowercase_idem s)

-- On ASCII the bytes are the code points.
pub IsAscii : Text → Type 0
IsAscii = All (λ c. c < 128)

pub utf8-IsAscii : (s : Text) → All (λ c. c < 128) s → utf8 s ≡ s
unfolding utf8
utf8-IsAscii [] h = refl
utf8-IsAscii (c ∷ s) h = ground (arith, utf8-IsAscii s h.1)
