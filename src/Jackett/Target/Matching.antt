-- ===== src/Jackett/Target/Matching.antt =====
-- What `SearchTarget.matches` takes, and what it refuses.
use mathlib.Core.Option.{some-injective}
use peanut_butter.Prelude.{
  ◌≡◌, refl, sym, ap₂, subst, if◌then◌else◌, Bool, true, false, some, none, [], ◌∷◌, ◌++◌, ◌||◌,
  ◌&&◌, ◌⊎◌, inl, inr, ◌↔◌, not, Bool-cases, Option-cases, is_empty, any, List, All, All-IsIn, IsIn,
}
use peanut_butter.Text.{Text, codes, text_eq, text_eq_sound, text_eq_refl}
use peanut_butter.Outside.Unicode.{Unicode}
use peanut_butter.Jackett.Target.Prefix.{strip_release_prefix}
use peanut_butter.Jackett.Target.Candidates.{IsName, candidates-IsName, title-IsIn}
use peanut_butter.Jackett.Target.{
  SearchTarget, Candidate, candidates, rest_after, rest_ok, variants_of, fits, title_tokens,
  matches,
}

any-IsIn :
    {A : Type 0} (p : A → Bool) (x : A) (xs : List A) → IsIn x xs → p x ≡ true → any p xs ≡ true
any-IsIn p x [] h k = absurd h
any-IsIn p x (y ∷ xs) (inl e) k = rw (sym e, k) refl
any-IsIn p x (y ∷ xs) (inr h) k = elim (Bool-cases (p y)) [
  | inl e ↦ rw e refl
  | inr e ↦ rw e (any-IsIn p x xs h k)
]

IsIn-any :
    {A : Type 0} (p : A → Bool) (xs : List A) → any p xs ≡ true → (x : A) × IsIn x xs × (p x ≡ true)
IsIn-any p [] h = absurd cc
IsIn-any p (x ∷ xs) h = elim (Bool-cases (p x)) [
  | inl e ↦ (x, inl refl, e)
  | inr e ↦
      let (y, k, l) = IsIn-any p xs (subst (λ (b : Bool). (b || any p xs) ≡ true) e h) in
      (y, inr k, l)
]

rest_after-append : (title rest : List Text) → rest_after (title ++ rest) title ≡ some rest
unfolding rest_after
rest_after-append [] [] = refl
rest_after-append [] (x ∷ rest) = refl
rest_after-append (c ∷ cs) rest = rw (text_eq_refl c) (rest_after-append cs rest)

rest_after_sound : (rs cs rest : List Text) → rest_after rs cs ≡ some rest → cs ++ rest ≡ rs
unfolding rest_after
rest_after_sound [] [] rest h = sym (some-injective [] rest h)
rest_after_sound (r ∷ rs) [] rest h = sym (some-injective (r ∷ rs) rest h)
rest_after_sound [] (c ∷ cs) rest h = absurd cc
rest_after_sound (r ∷ rs) (c ∷ cs) rest h = elim (Bool-cases (text_eq r c)) [
  | inl e ↦
      let more = rest_after_sound rs cs rest (rw (rest_after, e) at h) in
      ap₂ ◌∷◌ (sym (text_eq_sound r c e)) more
  | inr e ↦ absurd (no_some (rw (rest_after, e) at h))
]
  where
    no_some : none ≡ some rest → ⊥
    no_some k = cc

-- The tokens of a release begin with these, but for a "the" that may lead them.
abbrev pub Heads : List Text → List Text → Type 0
Heads rel tokens = (tokens ≡ rel) ⊎ (codes "the" ∷ tokens ≡ rel)

and_true : (a b : Bool) → (a && b) ≡ true → a ≡ true
and_true true b h = refl
and_true false b h = cc

and_true_right : (a b : Bool) → (a && b) ≡ true → b ≡ true
and_true_right true b h = h
and_true_right false b h = cc

absurd_test : false ≡ true → ⊥
absurd_test h = cc

variants_of-Heads : (rel v : List Text) → IsIn v (variants_of rel) → Heads rel v
unfolding variants_of
variants_of-Heads [] v (inl e) = inl e
variants_of-Heads [] v (inr h) = absurd h
variants_of-Heads (t ∷ rest) v h =
    elim (Bool-cases (text_eq t (codes "the") && not (is_empty rest))) [
      | inl e ↦
          let the : t ≡ codes "the" = text_eq_sound t (codes "the") (and_true _ _ e) in
          let either : IsIn v ((t ∷ rest) ∷ rest ∷ []) =
            subst (λ b. IsIn v (if b then (t ∷ rest) ∷ rest ∷ [] else (t ∷ rest) ∷ [])) e h in
          elim either [
            | inl k ↦ inl k
            | inr (inl k) ↦ inr (ap₂ ◌∷◌ (sym the) k)
            | inr (inr k) ↦ absurd k
          ]
      | inr e ↦
          let only : IsIn v ((t ∷ rest) ∷ []) =
            subst (λ b. IsIn v (if b then (t ∷ rest) ∷ rest ∷ [] else (t ∷ rest) ∷ [])) e h in
          elim only [ inl k ↦ inl k | inr k ↦ absurd k ]
    ]

whole-IsIn : (rel : List Text) → IsIn rel (variants_of rel)
unfolding variants_of
whole-IsIn [] = inl refl
whole-IsIn (t ∷ rest) =
    elim (text_eq t (codes "the") && not (is_empty rest))
      as (λ b. IsIn (t ∷ rest) (if b then (t ∷ rest) ∷ rest ∷ [] else (t ∷ rest) ∷ [])) [
        | true ↦ inl refl
        | false ↦ inl refl
      ]

behind_the-IsIn : (v : List Text) → is_empty v ≡ false → IsIn v (variants_of (codes "the" ∷ v))
unfolding variants_of text_eq
behind_the-IsIn v h = rw (variants_of, h) (inr (inl refl))

Heads-variants_of :
    (rel v : List Text) → is_empty v ≡ false → Heads rel v → IsIn v (variants_of rel)
Heads-variants_of rel v h (inl e) = subst (λ r. IsIn v (variants_of r)) e (whole-IsIn v)
Heads-variants_of rel v h (inr e) = subst (λ r. IsIn v (variants_of r)) e (behind_the-IsIn v h)

not_empty-append : (xs ys : List Text) → is_empty xs ≡ false → is_empty (xs ++ ys) ≡ false
not_empty-append [] ys h = cc
not_empty-append (x ∷ xs) ys h = refl

Heads-some_word : (rel v : List Text) → is_empty v ≡ false → Heads rel v → is_empty rel ≡ false
Heads-some_word rel v h (inl e) = subst (λ r. is_empty r ≡ false) e h
Heads-some_word rel v h (inr e) = subst (λ r. is_empty r ≡ false) e refl

module _ (uni : Unicode) (t : SearchTarget) (kind : Text) where
  -- The release is a candidate with words behind it that may follow a title.
  abbrev pub IsWanted : List Text → Type 0
  IsWanted rel =
      (c : Candidate) × (rest : List Text) × IsIn c (candidates uni t)
      × Heads rel (c.0 ++ rest)
      × (rest_ok t rest kind c.1 ≡ true)

  fits-rest :
      (c : Candidate) (r : List Text)
      → fits uni t kind c r ≡ true
      → (rest : List Text) × (c.0 ++ rest ≡ r) × (rest_ok t rest kind c.1 ≡ true)
  unfolding fits
  fits-rest (cand, y) r h = elim (Option-cases (rest_after r cand)) [
    | inl e ↦ absurd (absurd_test (rw (fits, e) at h))
    | inr (rest, e) ↦ (rest, rest_after_sound r cand rest e, rw (fits, e) at h)
  ]

  fits-append :
      (c : Candidate) (rest : List Text)
      → rest_ok t rest kind c.1 ≡ true
      → fits uni t kind c (c.0 ++ rest) ≡ true
  unfolding fits
  fits-append (cand, y) rest h = rw (fits, rest_after-append cand rest) h

  found-IsWanted :
      (rel : List Text)
      → any (λ c. any (fits uni t kind c) (variants_of rel)) (candidates uni t) ≡ true
      → IsWanted rel
  found-IsWanted rel h =
      let (c, k, l) = IsIn-any _ (candidates uni t) h in
      let (v, in_rel, fit) = IsIn-any (fits uni t kind c) (variants_of rel) l in
      let (rest, e, ok) = fits-rest c v fit in
      (c, rest, k, subst (Heads rel) (sym e) (variants_of-Heads rel v in_rel), ok)

  IsWanted-found :
      (rel : List Text)
      → IsWanted rel
      → (not (is_empty rel)
          && any (λ c. any (fits uni t kind c) (variants_of rel)) (candidates uni t))
        ≡ true
  IsWanted-found rel (c, rest, k, heads, ok) =
      let (name, _, (some_word, _)) =
        All-IsIn (IsName uni (t.title ∷ t.alt_titles)) c _ (candidates-IsName uni t) k in
      let some_words = not_empty-append c.0 rest some_word in
      let fit =
        any-IsIn (fits uni t kind c) (c.0 ++ rest) (variants_of rel)
          (Heads-variants_of rel (c.0 ++ rest) some_words heads) (fits-append c rest ok) in
      let found = any-IsIn (λ c. any (fits uni t kind c) (variants_of rel)) c _ k fit in
      rw (Heads-some_word rel (c.0 ++ rest) some_words heads) found

  -- A release is taken exactly if its words, without the tags in front and perhaps without a leading
  -- "the", are those of a candidate and then words that may follow it. Each candidate has a word and
  -- comes from the title or another name: it is the name, or the name without a leading "the", or
  -- what stands before its colon or dash, which then wants the exact year. The title is a candidate
  -- if it has a word.
  pub matches_lem :
      (release : Text)
      → ((matches uni t release kind ≡ true)
          ↔ IsWanted (title_tokens uni (strip_release_prefix release)))
        × All (IsName uni (t.title ∷ t.alt_titles)) (candidates uni t)
        × ((is_empty (title_tokens uni t.title) ≡ true)
            ⊎ IsIn (title_tokens uni t.title, false) (candidates uni t))
  unfolding matches
  matches_lem release =
      let rel = title_tokens uni (strip_release_prefix release) in
      (
        (λ h. found-IsWanted rel (and_true_right _ _ h), IsWanted-found rel),
        candidates-IsName uni t,
        elim (Bool-cases (is_empty (title_tokens uni t.title))) [
          | inl e ↦ inl e
          | inr e ↦ inr (title-IsIn uni t e)
        ],
      )
