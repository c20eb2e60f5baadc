-- ===== src/Prelude/More.antt =====
-- Filters, searches and predicates on lists, and the bind of `Option`.
use Prim.Native.Nat.{ℕ, zero, suc, ◌≤◌}
use mathlib.Core.Path.{◌≡◌, refl, sym, subst}
use mathlib.Core.Logic.{◌⊎◌, inl, inr}
use mathlib.Core.Bool.{Bool, true, false, ◌&&◌, ◌||◌}
use mathlib.Core.List.{List, [], ◌∷◌, ◌++◌, foldl}
use mathlib.Core.Option.{Option, none, some}
use native.Mathlib.Omega.{arith}
use peanut_butter.Prelude.Lists.{length, take}
use peanut_butter.Prelude.Tests.{if◌then◌else◌, Bool-cases}

infixl 5 ◌>>=◌
abbrev pub ◌>>=◌ {ℓ κ} : {A : Type ℓ} {B : Type κ} → Option A → (A → Option B) → Option B
none >>= f = none
some a >>= f = f a

-- A successful bind has two successful parts.
pub >>=-eq-some {ℓ κ} :
    {A : Type ℓ} {B : Type κ} (m : Option A) (f : A → Option B) {b : B}
    → (m >>= f) ≡ some b
    → (a : A) × (m ≡ some a) × (f a ≡ some b)
>>=-eq-some none f h = cc
>>=-eq-some (some a) f h = (a, refl, h)

-- `Option::unwrap_or`.
abbrev pub unwrap_or {ℓ} : {A : Type ℓ} → Option A → A → A
unwrap_or none d = d
unwrap_or (some a) d = a

-- `Option::is_some`.
abbrev pub is_some {ℓ} : {A : Type ℓ} → Option A → Bool
is_some none = false
is_some (some a) = true

module _ {ℓ} {A : Type ℓ} where
  -- `Vec::is_empty`.
  abbrev pub is_empty : List A → Bool
  is_empty [] = true
  is_empty (x ∷ xs) = false

  -- `Iterator::any`, `all`, and `filter` (or `Vec::retain`).
  abbrev pub any : (A → Bool) → List A → Bool
  any p [] = false
  any p (x ∷ xs) = p x || any p xs

  abbrev pub all : (A → Bool) → List A → Bool
  all p [] = true
  all p (x ∷ xs) = p x && all p xs

  abbrev pub filter : (A → Bool) → List A → List A
  filter p [] = []
  filter p (x ∷ xs) = if p x then x ∷ filter p xs else filter p xs

  abbrev pub take_while : (A → Bool) → List A → List A
  take_while p [] = []
  take_while p (x ∷ xs) = if p x then x ∷ take_while p xs else []

  abbrev pub drop_while : (A → Bool) → List A → List A
  drop_while p [] = []
  drop_while p (x ∷ xs) = if p x then drop_while p xs else x ∷ xs

module _ {ℓ κ} {A : Type ℓ} where
  -- A property of each element.
  abbrev pub All : (A → Type κ) → List A → Type κ
  All P [] = Unit
  All P (x ∷ xs) = P x × All P xs

module _ {ℓ κ} {A : Type ℓ} (P : A → Type κ) where
  pub All-append : (xs ys : List A) → All P xs → All P ys → All P (xs ++ ys)
  All-append [] ys _ hy = hy
  All-append (x ∷ xs) ys (px, hx) hy = (px, All-append xs ys hx hy)

  pub All-filter : (p : A → Bool) (xs : List A) → All P xs → All P (filter p xs)
  All-filter p [] h = tt
  All-filter p (x ∷ xs) h = ground (arith, All-filter p xs h.1)

  pub All-take : (n : ℕ) (xs : List A) → All P xs → All P (take n xs)
  All-take zero xs h = tt
  All-take (suc n) [] h = tt
  All-take (suc n) (x ∷ xs) h = (h.0, All-take n xs h.1)

module _ {ℓ} {A : Type ℓ} where
  pub filter-All : (p : A → Bool) (xs : List A) → All (λ x. p x ≡ true) (filter p xs)
  filter-All p [] = tt
  filter-All p (x ∷ xs) = ground (arith, filter-All p xs)

  pub length-filter-le : (p : A → Bool) (xs : List A) → length (filter p xs) ≤ length xs
  length-filter-le p [] = omega arith
  length-filter-le p (x ∷ xs) = ground (arith, length-filter-le p xs)

pub foldl-append {ℓ κ} :
    {A : Type ℓ} {B : Type κ} (f : B → A → B) (b : B) (xs : List A) (x : A)
    → foldl f b (xs ++ x ∷ []) ≡ f (foldl f b xs) x
foldl-append f b [] x = refl
foldl-append f b (y ∷ xs) x = foldl-append f (f b y) xs x

pub filter-append {ℓ} :
    {A : Type ℓ} (p : A → Bool) (xs ys : List A) → filter p (xs ++ ys) ≡ filter p xs ++ filter p ys
filter-append p [] ys = refl
filter-append p (x ∷ xs) ys = ground (arith, filter-append p xs ys)

-- An element that a test accepts.
pub any-witness {ℓ κ} :
    {A : Type ℓ} {P : A → Type κ} (p : A → Bool) (xs : List A)
    → any p xs ≡ true
    → All P xs
    → (x : A) × P x × (p x ≡ true)
any-witness p [] h v = cc
any-witness p (x ∷ xs) h v = elim (Bool-cases (p x)) [
  | inl e ↦ (x, v.0, e)
  | inr e ↦ any-witness p xs (subst (λ (b : Bool). (b || any p xs) ≡ true) e h) v.1
]

-- A list has this element.
abbrev pub IsIn : {A : Type 0} → A → List A → Type 0
IsIn x [] = ⊥
IsIn x (y ∷ ys) = (x ≡ y) ⊎ IsIn x ys

module _ {A : Type 0} where
  pub IsIn-filter : (p : A → Bool) (x : A) (xs : List A) → IsIn x (filter p xs) → IsIn x xs
  IsIn-filter p x [] h = h
  IsIn-filter p x (y ∷ xs) h = elim (Bool-cases (p y)) [
    | inl e ↦ elim (subst (λ b. IsIn x (if b then y ∷ filter p xs else filter p xs)) e h) [
      | inl k ↦ inl k
      | inr k ↦ inr (IsIn-filter p x xs k)
    ]
    | inr e ↦
        inr (
          IsIn-filter p x xs (subst (λ b. IsIn x (if b then y ∷ filter p xs else filter p xs)) e h))
  ]

-- What holds of each element holds of this one.
pub All-IsIn {κ} : {A : Type 0} (P : A → Type κ) (x : A) (xs : List A) → All P xs → IsIn x xs → P x
All-IsIn P x [] h k = absurd k
All-IsIn P x (y ∷ xs) h (inl e) = subst P (sym e) h.0
All-IsIn P x (y ∷ xs) h (inr k) = All-IsIn P x xs h.1 k

no_cons {ℓ} : {A : Type ℓ} {x : A} {xs : List A} → ¬ (x ∷ xs ≡ [])
no_cons h = cc

-- Nothing passes a test exactly if each element fails it.
pub filter-nil {ℓ} :
    {A : Type ℓ} (p : A → Bool) (xs : List A) → filter p xs ≡ [] → All (λ x. p x ≡ false) xs
filter-nil p [] h = tt
filter-nil p (x ∷ xs) h = elim (Bool-cases (p x)) [
  | inl e ↦ absurd (no_cons (subst (λ b. (if b then x ∷ filter p xs else filter p xs) ≡ []) e h))
  | inr e ↦
      (e, filter-nil p xs (subst (λ b. (if b then x ∷ filter p xs else filter p xs) ≡ []) e h))
]
