-- ===== src/Sources/Links/Laws.antt =====
-- Which direct links are dropped.
use peanut_butter.Prelude.{
  ℕ, zero, suc, ◌≤◌, ◌<◌, ◌≡◌, refl, true, false, Option, List, [], ◌∷◌, if◌then◌else◌, arith, All,
  Bool-cases, inl, inr, ap,
}
use peanut_butter.Sources.Types.{StreamSource, is_http}
use peanut_butter.Sources.Links.{
  max_link_checks, enumerate, contains_key, is_refused, refused, checks_of, without, check_links,
}

contains_key-below :
    (js : List ℕ) (i k : ℕ) → i < k → All (λ j. k ≤ j) js → contains_key js i ≡ false
unfolding contains_key
contains_key-below [] i k h v = refl
contains_key-below (j ∷ js) i k h v = ground (arith, contains_key-below js i k h v.1)

without_nothing : (i : ℕ) (sources : List StreamSource) → without [] (enumerate i sources) ≡ sources
unfolding without enumerate
without_nothing i [] = refl
without_nothing i (s ∷ rest) = ap (◌∷◌ s) (without_nothing (suc i) rest)

without_earlier :
    (js : List ℕ) (j i : ℕ) (sources : List StreamSource)
    → j < i
    → without (j ∷ js) (enumerate i sources) ≡ without js (enumerate i sources)
unfolding without enumerate
without_earlier js j i [] h = refl
without_earlier js j i (s ∷ rest) h = ground (arith, without_earlier js j (suc i) rest)

checks_of-http :
    (n i : ℕ) (s : StreamSource) (rest : List StreamSource)
    → is_http s ≡ true
    → checks_of (suc n) i (s ∷ rest) ≡ (i, s) ∷ checks_of n (suc i) rest
unfolding checks_of
checks_of-http n i s rest h = rw h

checks_of-other :
    (n i : ℕ) (s : StreamSource) (rest : List StreamSource)
    → is_http s ≡ false
    → checks_of n i (s ∷ rest) ≡ checks_of n (suc i) rest
unfolding checks_of
checks_of-other n i s rest h = rw h

without_gone :
    (js : List ℕ) (i : ℕ) (s : StreamSource) (rest : List StreamSource)
    → without (i ∷ js) (enumerate i (s ∷ rest)) ≡ without js (enumerate (suc i) rest)
without_gone js i s rest =
    unfold without enumerate in ground (arith, without_earlier js i (suc i) rest)

without_kept :
    (js : List ℕ) (i : ℕ) (s : StreamSource) (rest : List StreamSource)
    → All (λ j. suc i ≤ j) js
    → without js (enumerate i (s ∷ rest)) ≡ s ∷ without js (enumerate (suc i) rest)
without_kept js i s rest v =
    let no_key = contains_key-below js i (suc i) (omega arith) v in
    unfold without enumerate in rw no_key

from_later : (i : ℕ) (js : List ℕ) → All (λ j. suc i ≤ j) js → All (λ j. i ≤ j) js
from_later i [] v = tt
from_later i (j ∷ js) v = (omega arith, from_later i js v.1)

module _ (host : StreamSource → Option ℕ) where
  -- One pass with a budget: each direct link uses up one check while there are any.
  unfoldable pub keep_unrefused : ℕ → List StreamSource → List StreamSource
  keep_unrefused n [] = []
  keep_unrefused zero (s ∷ rest) = s ∷ rest
  keep_unrefused (suc n) (s ∷ rest) =
      let checked = keep_unrefused n rest in
      let passed = keep_unrefused (suc n) rest in
      if is_http s then (if is_refused host s then checked else s ∷ checked) else s ∷ passed

  refused_from :
      (n i : ℕ) (sources : List StreamSource)
      → All (λ j. i ≤ j) (refused host (checks_of n i sources))
  unfolding refused
  refused_from zero i sources = unfold checks_of in tt
  refused_from (suc n) i [] = unfold checks_of in tt
  refused_from (suc n) i (s ∷ rest) = elim (Bool-cases (is_http s)) [
    | inl h ↦ elim (Bool-cases (is_refused host s)) [
      | inl r ↦
          rw (checks_of-http n i s rest h, r)
            (omega arith, from_later i _ (refused_from n (suc i) rest))
      | inr r ↦ rw (checks_of-http n i s rest h, r) (from_later i _ (refused_from n (suc i) rest))
    ]
    | inr h ↦
        rw (checks_of-other (suc n) i s rest h) (from_later i _ (refused_from (suc n) (suc i) rest))
  ]

  without-keep_unrefused :
      (n i : ℕ) (sources : List StreamSource)
      → without (refused host (checks_of n i sources)) (enumerate i sources)
        ≡ keep_unrefused n sources
  unfolding refused keep_unrefused
  without-keep_unrefused zero i [] = unfold checks_of in without_nothing i []
  without-keep_unrefused zero i (s ∷ rest) = unfold checks_of in without_nothing i (s ∷ rest)
  without-keep_unrefused (suc n) i [] = unfold checks_of without enumerate in refl
  without-keep_unrefused (suc n) i (s ∷ rest) = elim (Bool-cases (is_http s)) [
    | inl h ↦ elim (Bool-cases (is_refused host s)) [
      | inl r ↦
          rw (checks_of-http n i s rest h, h, r, without_gone)
            (without-keep_unrefused n (suc i) rest)
      | inr r ↦
          rw
            (
              checks_of-http n i s rest h,
              h,
              r,
              without_kept _ i s rest (refused_from n (suc i) rest),
            )
            (ap (◌∷◌ s) (without-keep_unrefused n (suc i) rest))
    ]
    | inr h ↦
        rw
          (
            checks_of-other (suc n) i s rest h,
            h,
            without_kept _ i s rest (refused_from (suc n) (suc i) rest),
          )
          (ap (◌∷◌ s) (without-keep_unrefused (suc n) (suc i) rest))
  ]

  -- `check_links` is one pass in order: of the first 30 direct links it drops those that their host
  -- refuses, and it keeps every torrent, every link that the host did not answer, and all that
  -- comes behind the thirtieth link.
  pub check_links-keep_unrefused :
      (sources : List StreamSource)
      → check_links host sources ≡ keep_unrefused max_link_checks sources
  unfolding check_links
  check_links-keep_unrefused sources = without-keep_unrefused max_link_checks 0 sources
