-- ===== src/Catalogs/Mix/Seen.antt =====
-- Sets of ids, and the next title that is not in one.
use peanut_butter.Prelude.{
  ℕ, ◌≡◌, refl, sym, ap, subst, ◌∙◌, true, false, Option, none, some, List, [], ◌∷◌, ◌++◌, ◌⊎◌, inl,
  inr, if◌then◌else◌, map, IsIn, Bool-cases, arith,
}
use mathlib.Core.Option.{some-injective}
use peanut_butter.Catalogs.{has}
use peanut_butter.Catalogs.Mix.{next_new}

-- No number stands twice.
abbrev pub DistinctIds : List ℕ → Type 0
DistinctIds [] = Unit
DistinctIds (i ∷ is) = (has is i ≡ false) × DistinctIds is

pub has-append : (is : List ℕ) (i j : ℕ) → has (is ++ i ∷ []) j ≡ has (i ∷ is) j
unfolding has
has-append [] i j = refl
has-append (k ∷ is) i j = ground (arith, has-append is i j)

has_later : (is : List ℕ) (i k : ℕ) → has (k ∷ is) i ≡ false → has is i ≡ false
unfolding has
has_later is i k h = ground arith

has_other :
    (is : List ℕ) (i k : ℕ) → has (k ∷ is) i ≡ false → has is k ≡ false → has (i ∷ is) k ≡ false
unfolding has
has_other is i k h e = ground arith

pub DistinctIds-append :
    (is : List ℕ) (i : ℕ) → has is i ≡ false → DistinctIds is → DistinctIds (is ++ i ∷ [])
unfolding has
DistinctIds-append [] i h d = (refl, tt)
DistinctIds-append (k ∷ is) i h d =
    (has-append is i k ∙ has_other is i k h d.0, DistinctIds-append is i (has_later is i k h) d.1)

pub has-cons : (seen : List ℕ) (i j : ℕ) → has seen j ≡ true → has (i ∷ seen) j ≡ true
unfolding has
has-cons seen i j h = ground arith

has_self : (seen : List ℕ) (i : ℕ) → has (i ∷ seen) i ≡ true
unfolding has
has_self seen i = ground arith

pub map-append {ℓ κ} :
    {A : Type ℓ} {B : Type κ} (f : A → B) (xs : List A) (x : A)
    → map f (xs ++ x ∷ []) ≡ map f xs ++ f x ∷ []
map-append f [] x = refl
map-append f (y ∷ xs) x = ap (λ l. f y ∷ l) (map-append f xs x)

module _ {A : Type 0} (id : A → ℕ) where
  -- A title that was seen or is still to come.
  abbrev pub Ahead : List ℕ → List A → A → Type 0
  Ahead seen it u = (has seen (id u) ≡ true) ⊎ IsIn u it

  pub next_new-none :
      (seen : List ℕ) (it : List A)
      → next_new id seen it ≡ none
      → (u : A) → IsIn u it
      → has seen (id u) ≡ true
  unfolding next_new
  next_new-none seen [] e u h = absurd h
  next_new-none seen (t ∷ it) e u h = elim (Bool-cases (has seen (id t))) [
    | inl k ↦
        let e' : next_new id seen it ≡ none =
          subst (λ b. (if b then next_new id seen it else some (t, it)) ≡ none) k e in
        elim h [
          | inl same ↦ subst (λ v. has seen (id v) ≡ true) (sym same) k
          | inr inside ↦ next_new-none seen it e' u inside
        ]
    | inr k ↦
        let no : ◌≡◌ {A = Option (A × List A)} (some (t, it)) none =
          subst (λ b. (if b then next_new id seen it else some (t, it)) ≡ none) k e in
        absurd cc
  ]

  abbrev pub Next : List ℕ → List A → A → List A → Type 0
  Next seen it t rest =
      (has seen (id t) ≡ false)
      × IsIn t it
      × ((u : A) → IsIn u rest → IsIn u it)
      × ((u : A) → IsIn u it → Ahead (id t ∷ seen) rest u)

  pub next_new-some :
      (seen : List ℕ) (it : List A) (t : A) (rest : List A)
      → next_new id seen it ≡ some (t, rest)
      → Next seen it t rest
  unfolding next_new
  next_new-some seen [] t rest e = absurd cc
  next_new-some seen (s ∷ it) t rest e = elim (Bool-cases (has seen (id s))) [
    | inl k ↦
        let e' : next_new id seen it ≡ some (t, rest) =
          subst (λ b. (if b then next_new id seen it else some (s, it)) ≡ some (t, rest)) k e in
        let (fresh, inside, sub, ahead) = next_new-some seen it t rest e' in
        (
          fresh,
          inr inside,
          λ u h. inr (sub u h),
          λ u h. elim h [
            | inl same ↦ inl (
                subst (λ v. has (id t ∷ seen) (id v) ≡ true) (sym same)
                  (has-cons seen (id t) (id s) k))
            | inr h' ↦ ahead u h'
          ],
        )
    | inr k ↦
        let both : some (s, it) ≡ some (t, rest) =
          subst (λ b. (if b then next_new id seen it else some (s, it)) ≡ some (t, rest)) k e in
        let pair = some-injective (s, it) (t, rest) both in
        subst (λ (p : A × List A). Next seen (s ∷ it) p.0 p.1) pair
          (
            k,
            inl refl,
            λ u h. inr h,
            λ u h. elim h [
              | inl same ↦
                  inl
                    (subst (λ v. has (id s ∷ seen) (id v) ≡ true) (sym same) (has_self seen (id s)))
              | inr h' ↦ inr h'
            ],
          )
  ]
