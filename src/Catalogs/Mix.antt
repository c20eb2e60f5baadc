-- ===== src/Catalogs/Mix.antt =====
-- backend/src/addon_catalogs.rs, `mix`: trending titles with those of add-ons in every third place.
-- The loop gets as much fuel as the row has places, and each round but the last fills one.
pub mod Seen
pub mod Laws
use peanut_butter.Prelude.{
  ℕ, zero, suc, ◌%◌, Bool, true, false, Option, none, some, List, [], ◌∷◌, ◌++◌, ◌==◌,
  if◌then◌else◌, length, ltb,
}
use peanut_butter.Catalogs.{has}

module _ {A : Type 0} (id : A → ℕ) where
  pub record Mixing : Type 0 where
    pub seen : List ℕ
    pub a : List A
    pub b : List A
    pub out : List A

  -- The next that was not seen, and what follows it.
  unfoldable pub next_new : List ℕ → List A → Option (A × List A)
  unfolding has
  next_new seen [] = none
  next_new seen (t ∷ it) =
      let rest = next_new seen it in if has seen (id t) then rest else some (t, it)

  unfoldable pub put : Mixing → A → Mixing
  put m t = record m { seen = id t ∷ m.seen; out = m.out ++ t ∷ [] }

  -- `take` of either iterator; one without a new title is used up.
  unfoldable pub take_a : Mixing → Mixing × Bool
  unfolding next_new put
  take_a m = elim (next_new m.seen m.a) [
    | none ↦ (record m { a = [] }, false)
    | some (t, rest) ↦ (put (record m { a = rest }) t, true)
  ]

  unfoldable pub take_b : Mixing → Mixing × Bool
  unfolding next_new put
  take_b m = elim (next_new m.seen m.b) [
    | none ↦ (record m { b = [] }, false)
    | some (t, rest) ↦ (put (record m { b = rest }) t, true)
  ]

  -- `first || second`.
  unfoldable pub or_take : Mixing × Bool → (Mixing → Mixing × Bool) → Mixing × Bool
  or_take (m, true) second = (m, true)
  or_take (m, false) second = second m

  unfoldable pub fill : Mixing → Mixing × Bool
  unfolding or_take take_a take_b
  fill m = if length m.out % 3 == 2 then or_take (take_b m) take_a else or_take (take_a m) take_b

  unfoldable pub mix_loop : ℕ → ℕ → Mixing → Mixing
  unfolding fill
  mix_loop zero limit m = m
  mix_loop (suc fuel) limit m =
      let (m', got) = fill m in
      let more = mix_loop fuel limit m' in
      if ltb (length m.out) limit then (if got then more else m') else m

  unfoldable pub mix : List A → List A → ℕ → List A
  unfolding mix_loop
  mix trending addon limit =
      (mix_loop limit limit (record { seen = []; a = trending; b = addon; out = [] })).out
