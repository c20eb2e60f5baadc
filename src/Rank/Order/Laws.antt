-- ===== src/Rank/Order/Laws.antt =====
-- What `rank` returns: the best of what passes the screening.
use mathlib.Core.List.{Perm}
use mathlib.Core.List.Perm
use peanut_butter.Prelude.{
  ℕ, zero, suc, ◌≡◌, refl, true, false, List, [], ◌∷◌, ◌++◌, map, take, drop, length,
  take-append-drop, ℤ, ◌≤ℤ◌, arith, All, Bool-cases, inl, inr, ◌⊎◌, le_trans_ℤ, subst, sym, ap,
}
use peanut_butter.Outside.Regexes.{Regexes}
use peanut_butter.Outside.Floats.{Floats}
use peanut_butter.Sources.Types.{StreamSource}
use peanut_butter.Rank.Score.{RankPrefs}
use peanut_butter.Rank.Order.{
  max_results, screen, and_then, compare_sources, in_order, insert, sort, scored, rank,
}

in_order-score : (a b : StreamSource) → in_order a b ≡ true → b.score ≤ℤ a.score
unfolding in_order compare_sources and_then
in_order-score a b h = ground arith

not_in_order-score : (a b : StreamSource) → in_order a b ≡ false → a.score ≤ℤ b.score
unfolding in_order compare_sources and_then
not_in_order-score a b h = ground arith

-- Nobody stands in front of a better score.
abbrev pub Descends : List StreamSource → Type 0
Descends [] = Unit
Descends (a ∷ out) = All (λ b. b.score ≤ℤ a.score) out × Descends out

insert-perm : (a : StreamSource) (out : List StreamSource) → Perm (insert a out) (a ∷ out)
unfolding insert
insert-perm a [] = Perm.refl (a ∷ [])
insert-perm a (b ∷ out) = elim (Bool-cases (in_order a b)) [
  | inl h ↦ rw h (Perm.refl (a ∷ b ∷ out))
  | inr h ↦ rw h (Perm.trans (Perm.cons b (insert-perm a out)) (Perm.swap a b out))
]

sort-perm : (out : List StreamSource) → Perm (sort out) out
unfolding sort
sort-perm [] = Perm.refl []
sort-perm (a ∷ out) = Perm.trans (insert-perm a (sort out)) (Perm.cons a (sort-perm out))

All-below :
    (m n : ℤ) (out : List StreamSource)
    → m ≤ℤ n
    → All (λ b. b.score ≤ℤ m) out
    → All (λ b. b.score ≤ℤ n) out
All-below m n [] h v = tt
All-below m n (b ∷ out) h v = (le_trans_ℤ b.score m n v.0 h, All-below m n out h v.1)

insert-All :
    (n : ℤ) (a : StreamSource) (out : List StreamSource)
    → a.score ≤ℤ n
    → All (λ b. b.score ≤ℤ n) out
    → All (λ b. b.score ≤ℤ n) (insert a out)
unfolding insert
insert-All n a [] h v = (h, tt)
insert-All n a (b ∷ out) h v = elim (Bool-cases (in_order a b)) [
  | inl e ↦ rw e (h, v)
  | inr e ↦ rw e (v.0, insert-All n a out h v.1)
]

insert-Descends :
    (a : StreamSource) (out : List StreamSource) → Descends out → Descends (insert a out)
unfolding insert
insert-Descends a [] d = (tt, tt)
insert-Descends a (b ∷ out) d = elim (Bool-cases (in_order a b)) [
  | inl e ↦ let le = in_order-score a b e in rw e ((le, All-below b.score a.score out le d.0), d)
  | inr e ↦
      rw e (insert-All b.score a out (not_in_order-score a b e) d.0, insert-Descends a out d.1)
]

sort-Descends : (out : List StreamSource) → Descends (sort out)
unfolding sort
sort-Descends [] = tt
sort-Descends (a ∷ out) = insert-Descends a (sort out) (sort-Descends out)

take_full {ℓ} : {A : Type ℓ} (n : ℕ) (xs : List A) → (drop n xs ≡ []) ⊎ (length (take n xs) ≡ n)
take_full zero xs = inr refl
take_full (suc n) [] = inl refl
take_full (suc n) (x ∷ xs) = elim (take_full n xs) [ inl e ↦ inl e | inr e ↦ inr (ap suc e) ]

-- A list that is cut off after the best: `top` and what is cut are all the candidates, in
-- descending order of score; something is cut only from a full list.
abbrev pub IsTop : ℕ → List StreamSource → List StreamSource → Type 0
IsTop most candidates top =
    (cut : List StreamSource) × Perm (top ++ cut) candidates
    × Descends (top ++ cut)
    × ((cut ≡ []) ⊎ (length top ≡ most))

take_sorted-IsTop : (most : ℕ) (out : List StreamSource) → IsTop most out (take most (sort out))
take_sorted-IsTop most out = (
  drop most (sort out),
  subst (λ l. Perm l out) (sym (take-append-drop most (sort out))) (sort-perm out),
  subst Descends (sym (take-append-drop most (sort out))) (sort-Descends out),
  take_full most (sort out),
)

module _ (fl : Floats) (re : Regexes) where
  -- The list is the best 24 of the scored results that pass the screening: with what is cut off it
  -- is a permutation of them, no result stands in front of one with a higher score, those that are
  -- cut off included, and something is cut off only if 24 are shown.
  pub rank-IsTop :
      (out : List StreamSource) (prefs : RankPrefs)
      → IsTop max_results (map (scored fl re prefs) (screen out)) (rank fl re out prefs)
  unfolding rank
  rank-IsTop out prefs = take_sorted-IsTop max_results (map (scored fl re prefs) (screen out))
