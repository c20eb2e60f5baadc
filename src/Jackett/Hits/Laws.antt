-- ===== src/Jackett/Hits/Laws.antt =====
-- Laws of the categories of hits.
use peanut_butter.Prelude.{
  ℕ, ◌+◌, ◌%◌, ◌≡◌, refl, Bool, true, false, List, [], ◌∷◌, ◌&&◌, ◌||◌, if◌then◌else◌, any, All,
  arith, ℤ, pos, negsuc, leb_ℤ, ltb_ℤ, eqb_ℤ, is_empty, Bool-cases, any-witness, ◌⊎◌, sym, subst,
  ◌∙◌, inl, inr, ◌+ℤ◌,
}
use peanut_butter.Text.{Text, codes, text_eq}
use peanut_butter.Jackett.Hits.{
  JackettHit, is_xxx_category, is_related, is_parent, category_matches_allowed,
  hit_category_allowed, kind_category_ids, kind_categories, says_adult,
}

-- The thousand of a kind of title.
unfoldable pub in_thousand : ℕ → ℤ → Bool
in_thousand base c = leb_ℤ (pos base) c && ltb_ℤ c (pos (base + 1000))

unfoldable pub in_kind : Text → ℤ → Bool
unfolding in_thousand
in_kind kind c =
    if text_eq kind (codes "movie")
    then in_thousand 2000 c
    else if text_eq kind (codes "series") || text_eq kind (codes "anime")
    then in_thousand 5000 c
    else false

related-in_thousand :
    (base : ℕ) (c a : ℤ)
    → base % 1000 ≡ 0
    → in_thousand base a ≡ true
    → (eqb_ℤ c a || is_related c a) ≡ true
    → in_thousand base c ≡ true
unfolding in_thousand is_related is_parent ◌+ℤ◌
related-in_thousand base (pos c) (pos a) h k r = ground arith
related-in_thousand base (pos c) (negsuc a) h k r = ground arith
related-in_thousand base (negsuc c) (pos a) h k r = ground arith
related-in_thousand base (negsuc c) (negsuc a) h k r = ground arith

or-cases : (a b : Bool) → (a || b) ≡ true → (a ≡ true) ⊎ (b ≡ true)
or-cases true b h = inl refl
or-cases false b h = inr h

or_right : (a b : Bool) → b ≡ true → (a || b) ≡ true
or_right true b h = refl
or_right false b h = h

matches-in_thousand :
    (base : ℕ) (c : ℤ) (allowed : List ℤ)
    → base % 1000 ≡ 0
    → All (λ a. in_thousand base a ≡ true) allowed
    → category_matches_allowed c allowed ≡ true
    → in_thousand base c ≡ true
unfolding category_matches_allowed
matches-in_thousand base c allowed h v m = elim (or-cases (any (eqb_ℤ c) allowed) _ m) [
  | inl e ↦
      (let (a, k, same) = any-witness {P = λ a. in_thousand base a ≡ true} (eqb_ℤ c) allowed e v in
        related-in_thousand base c a h k (rw same refl))
  | inr e ↦
      (let (a, k, near) =
          any-witness {P = λ a. in_thousand base a ≡ true} (is_related c) allowed e v in
        related-in_thousand base c a h k (or_right (eqb_ℤ c a) (is_related c a) near))
]

ids_movie :
    (kind : Text)
    → text_eq kind (codes "movie") ≡ true
    → All (λ a. in_thousand 2000 a ≡ true) (kind_category_ids kind)
unfolding kind_category_ids kind_categories in_thousand
ids_movie kind h = rw h (ground arith)

ids_series :
    (kind : Text)
    → text_eq kind (codes "movie") ≡ false
    → text_eq kind (codes "series") ≡ true
    → All (λ a. in_thousand 5000 a ≡ true) (kind_category_ids kind)
unfolding kind_category_ids kind_categories in_thousand
ids_series kind h k = rw (h, k) (ground arith)

ids_anime :
    (kind : Text)
    → text_eq kind (codes "movie") ≡ false
    → text_eq kind (codes "series") ≡ false
    → text_eq kind (codes "anime") ≡ true
    → All (λ a. in_thousand 5000 a ≡ true) (kind_category_ids kind)
unfolding kind_category_ids kind_categories in_thousand
ids_anime kind h k l = rw (h, k, l) (ground arith)

ids_other :
    (kind : Text)
    → text_eq kind (codes "movie") ≡ false
    → text_eq kind (codes "series") ≡ false
    → text_eq kind (codes "anime") ≡ false
    → kind_category_ids kind ≡ []
unfolding kind_category_ids kind_categories
ids_other kind h k l = rw (h, k, l) refl

matches_nothing : (c : ℤ) → category_matches_allowed c [] ≡ false
unfolding category_matches_allowed
matches_nothing c = refl

true_not_false : {P : Type 0} → false ≡ true → P
true_not_false e = cc

category-in_kind :
    (kind : Text) (c : ℤ)
    → category_matches_allowed c (kind_category_ids kind) ≡ true
    → in_kind kind c ≡ true
unfolding in_kind
category-in_kind kind c m = elim (Bool-cases (text_eq kind (codes "movie"))) [
  | inl h ↦ rw h (matches-in_thousand 2000 c _ (omega arith) (ids_movie kind h) m)
  | inr h ↦ elim (Bool-cases (text_eq kind (codes "series"))) [
    | inl k ↦ rw (h, k) (matches-in_thousand 5000 c _ (omega arith) (ids_series kind h k) m)
    | inr k ↦ elim (Bool-cases (text_eq kind (codes "anime"))) [
      | inl l ↦ rw (h, k, l) (matches-in_thousand 5000 c _ (omega arith) (ids_anime kind h k l) m)
      | inr l ↦ true_not_false (
          sym (matches_nothing c)
          ∙ subst (λ (ids : List ℤ). category_matches_allowed c ids ≡ true) (ids_other kind h k l)
              m)
    ]
  ]
]

any_mono :
    {A : Type 0} (p q : A → Bool) (xs : List A)
    → ((x : A) → p x ≡ true → q x ≡ true)
    → any p xs ≡ true
    → any q xs ≡ true
any_mono p q [] h e = e
any_mono p q (x ∷ xs) h e = elim (or-cases (p x) (any p xs) e) [
  | inl k ↦ rw (h x k) refl
  | inr k ↦ or_right (q x) (any q xs) (any_mono p q xs h k)
]

none-All : {A : Type 0} (p : A → Bool) (xs : List A) → any p xs ≡ false → All (λ x. p x ≡ false) xs
none-All p [] h = tt
none-All p (x ∷ xs) h = ground (arith, none-All p xs)

passed :
    (xxx adult bare fits : Bool)
    → (if xxx then false else if adult then false else if bare then true else fits) ≡ true
    → (xxx ≡ false) × (adult ≡ false) × ((bare ≡ true) ⊎ (fits ≡ true))
passed true adult bare fits h = cc
passed false true bare fits h = cc
passed false false true fits h = (refl, refl, inl refl)
passed false false false fits h = (refl, refl, inr h)

-- A hit that is let through has no category of the adult thousand, and does not describe itself as
-- adult; and unless it has no category at all, one of its categories is in the thousand of its kind
-- of title, so that no hit with a category passes for a kind that has none.
pub hit_category_allowed_lem :
    (hit : JackettHit) (kind : Text)
    → hit_category_allowed hit kind ≡ true
    → All (λ c. is_xxx_category c ≡ false) hit.category
      × (says_adult hit.category_desc ≡ false)
      × ((is_empty hit.category ≡ true) ⊎ (any (in_kind kind) hit.category ≡ true))
unfolding hit_category_allowed
hit_category_allowed_lem hit kind h =
    let (clean, plain, fits) = passed (any is_xxx_category hit.category) _ _ _ h in
    (
      none-All is_xxx_category hit.category clean,
      plain,
      elim fits [
        | inl e ↦ inl e
        | inr e ↦ inr (any_mono _ (in_kind kind) hit.category (category-in_kind kind) e)
      ],
    )
