-- ===== src/Rank/Order/Kept.antt =====
-- What holds of every result that is ranked holds of every result that is shown.
use peanut_butter.Prelude.{
  Bool, List, [], ◌∷◌, any, map, All, All-filter, All-take, Bool-cases, inl, inr, ℤ, length,
  length-take, ◌≤◌, arith,
}
use peanut_butter.Outside.Regexes.{Regexes}
use peanut_butter.Outside.Floats.{Floats}
use peanut_butter.Sources.Types.{StreamSource}
use peanut_butter.Rank.Score.{RankPrefs, score}
use peanut_butter.Rank.Order.{
  prefer, screen, openable, is_alive, is_proper, in_order, insert, sort, scored, rank, max_results,
}

module _ {κ} (P : StreamSource → Type κ) where
  pub prefer-All :
      (p : StreamSource → Bool) (out : List StreamSource) → All P out → All P (prefer p out)
  unfolding prefer
  prefer-All p out h = elim (Bool-cases (any p out)) [
    | inl e ↦ rw e (All-filter P p out h)
    | inr e ↦ rw e h
  ]

  screen-All : (out : List StreamSource) → All P out → All P (screen out)
  unfolding screen
  screen-All out h = prefer-All is_alive _ (All-filter P is_proper _ (prefer-All openable out h))

  insert-All : (a : StreamSource) (out : List StreamSource) → P a → All P out → All P (insert a out)
  unfolding insert
  insert-All a [] pa h = (pa, tt)
  insert-All a (b ∷ out) pa (pb, h) = elim (Bool-cases (in_order a b)) [
    | inl e ↦ rw e (pa, (pb, h))
    | inr e ↦ rw e (pb, insert-All a out pa h)
  ]

  sort-All : (out : List StreamSource) → All P out → All P (sort out)
  unfolding sort
  sort-All [] h = tt
  sort-All (a ∷ out) (pa, h) = insert-All a (sort out) pa (sort-All out h)

  module _ (fl : Floats) (re : Regexes)
      (keeps : (s : StreamSource) (n : ℤ) → P s → P (record s { score = n })) where
    map-scored-All :
        (prefs : RankPrefs) (out : List StreamSource)
        → All P out
        → All P (map (scored fl re prefs) out)
    unfolding scored
    map-scored-All prefs [] h = tt
    map-scored-All prefs (s ∷ out) (ps, h) =
        (keeps s (score fl re s prefs) ps, map-scored-All prefs out h)

    pub rank-All :
        (prefs : RankPrefs) (out : List StreamSource) → All P out → All P (rank fl re out prefs)
    unfolding rank
    rank-All prefs out h =
        All-take P max_results _ (sort-All _ (map-scored-All prefs _ (screen-All out h)))

module _ (fl : Floats) (re : Regexes) where
  pub length-rank :
      (prefs : RankPrefs) (out : List StreamSource) → length (rank fl re out prefs) ≤ max_results
  unfolding rank
  length-rank prefs out =
      omega (arith, length-take max_results (sort (map (scored fl re prefs) (screen out))))
