-- ===== src/Rank/Order/Screening.antt =====
-- What the screening of `rank` leaves out.
use peanut_butter.Prelude.{
  ◌≡◌, refl, Bool, true, false, List, [], ◌∷◌, ◌&&◌, filter, any, arith, All, Bool-cases, inl, inr,
  ◌⊎◌, All-filter, filter-All, ◌∙◌,
}
use peanut_butter.Sources.Types.{StreamSource}
use peanut_butter.Rank.Order.Kept.{prefer-All}
use peanut_butter.Rank.Order.{openable, is_alive, is_proper, prefer, screen}

any_none :
    (p : StreamSource → Bool) (out : List StreamSource)
    → any p out ≡ false
    → All (λ s. p s ≡ false) out
any_none p [] h = tt
any_none p (s ∷ out) h = ground (arith, any_none p out)

-- Where there is something preferred nothing else is left.
prefer_only :
    (p : StreamSource → Bool) (out : List StreamSource)
    → All (λ s. p s ≡ true) (prefer p out) ⊎ All (λ s. p s ≡ false) (prefer p out)
unfolding prefer
prefer_only p out = elim (Bool-cases (any p out)) [
  | inl h ↦ inl (rw h (filter-All p out))
  | inr h ↦ inr (rw h (any_none p out h))
]

filter-filter :
    (p q : StreamSource → Bool) (out : List StreamSource)
    → ((s : StreamSource) → q s ≡ true → p s ≡ true)
    → filter q (filter p out) ≡ filter q out
filter-filter p q [] h = refl
filter-filter p q (s ∷ out) h = elim (Bool-cases (p s)) [
  | inl e ↦ ground (arith, filter-filter p q out h)
  | inr e ↦ ground (arith, filter-filter p q out h, h s)
]

filter-prefer :
    (p q : StreamSource → Bool) (out : List StreamSource)
    → ((s : StreamSource) → q s ≡ true → p s ≡ true)
    → filter q (prefer p out) ≡ filter q out
unfolding prefer
filter-prefer p q out h = elim (Bool-cases (any p out)) [
  | inl e ↦ rw e (filter-filter p q out h)
  | inr e ↦ rw e
]

-- What everybody may be offered: a direct link or a magnet, no recording from a cinema, not dead.
unfoldable pub is_good : StreamSource → Bool
is_good s = openable s && is_proper s && is_alive s

-- The screening never leaves a cinema recording (nor a telesync and the like); it leaves dead
-- torrents only where all that is left is dead; it leaves links that no app opens only where there
-- is nothing else; and it loses no result that is openable, proper and alive.
pub screen_lem :
    (out : List StreamSource)
    → All (λ s. is_proper s ≡ true) (screen out)
      × (All (λ s. is_alive s ≡ true) (screen out) ⊎ All (λ s. is_alive s ≡ false) (screen out))
      × (All (λ s. openable s ≡ true) (screen out) ⊎ All (λ s. openable s ≡ false) (screen out))
      × (filter is_good (screen out) ≡ filter is_good out)
unfolding screen
screen_lem out =
    let opened = prefer openable out in
    let proper = filter is_proper opened in
    (
      prefer-All _ is_alive proper (filter-All is_proper opened),
      prefer_only is_alive proper,
      kept,
      filter-prefer is_alive is_good proper (λ s h. unfold is_good in ground arith)
          ∙ filter-filter is_proper is_good opened (λ s h. unfold is_good in ground arith)
          ∙ filter-prefer openable is_good out (λ s h. unfold is_good in ground arith),
    )
  where
    kept :
        All (λ s. openable s ≡ true) (prefer is_alive (filter is_proper (prefer openable out)))
        ⊎ All (λ s. openable s ≡ false) (prefer is_alive (filter is_proper (prefer openable out)))
    kept = elim (prefer_only openable out) [
      | inl v ↦ inl (prefer-All _ is_alive _ (All-filter _ is_proper _ v))
      | inr v ↦ inr (prefer-All _ is_alive _ (All-filter _ is_proper _ v))
    ]
