-- ===== src/Catalogs/Mix/Laws.antt =====
-- What the mixed row has, and what it leaves out.
use peanut_butter.Prelude.{
  ℕ, zero, suc, ◌+◌, ◌%◌, ◌≤◌, ◌≡◌, refl, sym, ap, subst, ◌∙◌, Bool, true, false, none, List, [],
  ◌∷◌, ◌++◌, ◌||◌, ◌⊎◌, inl, inr, ◌==◌, length, length-append, ltb, map, All, All-append, IsIn,
  Bool-cases, Option-cases, arith,
}
use peanut_butter.Catalogs.{has}
use peanut_butter.Catalogs.Mix.{Mixing, next_new, put, take_a, take_b, or_take, fill, mix_loop, mix}
use peanut_butter.Catalogs.Mix.Seen.{
  DistinctIds, has-append, DistinctIds-append, has-cons, map-append, Ahead, Next, next_new-none,
  next_new-some,
}

module _ {A : Type 0} (id : A → ℕ) where
  -- The state of the loop: the seen ids are those of the row, in which none stands twice, the
  -- iterators and the row have titles of the two lists alone, and each title of a list was seen or
  -- is still ahead.
  module _ (trending addon : List A) where
    pub record Sound (m : Mixing id) : Type 0 where
      pub same : (i : ℕ) → has m.seen i ≡ has (map id m.out) i
      pub distinct : DistinctIds (map id m.out)
      pub from_a : (u : A) → IsIn u m.a → IsIn u trending
      pub from_b : (u : A) → IsIn u m.b → IsIn u addon
      pub from : All (λ u. IsIn u trending ⊎ IsIn u addon) m.out
      pub ahead_a : (u : A) → IsIn u trending → Ahead id m.seen m.a u
      pub ahead_b : (u : A) → IsIn u addon → Ahead id m.seen m.b u

    same-put :
        (m : Mixing id) (t : A)
        → ((i : ℕ) → has m.seen i ≡ has (map id m.out) i)
        → (i : ℕ) → has (id t ∷ m.seen) i ≡ has (map id (m.out ++ t ∷ [])) i
    unfolding has
    same-put m t h i =
        ap (λ b. id t == i || b) (h i)
        ∙ sym (has-append (map id m.out) (id t) i)
        ∙ ap (λ l. has l i) (sym (map-append id m.out t))

    weaken :
        (m : Mixing id) (t u : A) (it : List A)
        → Ahead id m.seen it u
        → Ahead id (id t ∷ m.seen) it u
    weaken m t u it (inl k) = inl (has-cons m.seen (id t) (id u) k)
    weaken m t u it (inr k) = inr k

    onward :
        (m : Mixing id) (t u : A) (it rest : List A)
        → Next id m.seen it t rest
        → Ahead id m.seen it u
        → Ahead id (id t ∷ m.seen) rest u
    onward m t u it rest n (inl k) = inl (has-cons m.seen (id t) (id u) k)
    onward m t u it rest n (inr k) = n.3 u k

    distinct-put :
        (m : Mixing id) (t : A)
        → Sound m
        → has m.seen (id t) ≡ false
        → DistinctIds (map id (m.out ++ t ∷ []))
    distinct-put m t s fresh =
        subst DistinctIds (sym (map-append id m.out t))
          (DistinctIds-append (map id m.out) (id t) (sym (s.same (id t)) ∙ fresh) s.distinct)

    used_up :
        (m : Mixing id) (u : A) (it : List A)
        → next_new id m.seen it ≡ none
        → Ahead id m.seen it u
        → Ahead id m.seen [] u
    used_up m u it e (inl k) = inl k
    used_up m u it e (inr k) = inl (next_new-none id m.seen it e u k)

    -- Either a title more, or one iterator used up.
    abbrev Grown : Mixing id → Mixing id → Type 0
    Grown m m' = Sound m' × (length m'.out ≡ suc (length m.out))

    take_a-Sound :
        (m : Mixing id)
        → Sound m
        → (Grown m (take_a id m).0 × ((take_a id m).1 ≡ true))
          ⊎ (Sound (record m { a = [] }) × (take_a id m ≡ (record m { a = [] }, false)))
    unfolding take_a put
    take_a-Sound m s = elim (Option-cases (next_new id m.seen m.a)) [
      | inl e ↦ inr (
        record {
          same = s.same;
          distinct = s.distinct;
          from_a = λ u h. absurd h;
          from_b = s.from_b;
          from = s.from;
          ahead_a = λ u h. used_up m u m.a e (s.ahead_a u h);
          ahead_b = s.ahead_b;
        },
        rw (take_a, e) refl,
      )
      | inr ((t, rest), e) ↦
          let n = next_new-some id m.seen m.a t rest e in
          let sound : Sound (put id (record m { a = rest }) t) = record {
            same = same-put m t s.same;
            distinct = distinct-put m t s n.0;
            from_a = λ u h. s.from_a u (n.2 u h);
            from_b = s.from_b;
            from = All-append _ m.out (t ∷ []) s.from (inl (s.from_a t n.1), tt);
            ahead_a = λ u h. onward m t u m.a rest n (s.ahead_a u h);
            ahead_b = λ u h. weaken m t u m.b (s.ahead_b u h);
          } in
          inl (rw (take_a, e) ((sound, omega (arith, length-append m.out (t ∷ []))), refl))
    ]

    take_b-Sound :
        (m : Mixing id)
        → Sound m
        → (Grown m (take_b id m).0 × ((take_b id m).1 ≡ true))
          ⊎ (Sound (record m { b = [] }) × (take_b id m ≡ (record m { b = [] }, false)))
    unfolding take_b put
    take_b-Sound m s = elim (Option-cases (next_new id m.seen m.b)) [
      | inl e ↦ inr (
        record {
          same = s.same;
          distinct = s.distinct;
          from_a = s.from_a;
          from_b = λ u h. absurd h;
          from = s.from;
          ahead_a = s.ahead_a;
          ahead_b = λ u h. used_up m u m.b e (s.ahead_b u h);
        },
        rw (take_b, e) refl,
      )
      | inr ((t, rest), e) ↦
          let n = next_new-some id m.seen m.b t rest e in
          let sound : Sound (put id (record m { b = rest }) t) = record {
            same = same-put m t s.same;
            distinct = distinct-put m t s n.0;
            from_a = s.from_a;
            from_b = λ u h. s.from_b u (n.2 u h);
            from = All-append _ m.out (t ∷ []) s.from (inr (s.from_b t n.1), tt);
            ahead_a = λ u h. weaken m t u m.a (s.ahead_a u h);
            ahead_b = λ u h. onward m t u m.b rest n (s.ahead_b u h);
          } in
          inl (rw (take_b, e) ((sound, omega (arith, length-append m.out (t ∷ []))), refl))
    ]

    -- A title more, or both iterators used up.
    abbrev Filled : Mixing id → Mixing id × Bool → Type 0
    Filled m r =
        (Grown m r.0 × (r.1 ≡ true))
        ⊎ (Sound r.0
            × (r.1 ≡ false)
            × (length r.0.out ≡ length m.out)
            × (r.0.a ≡ [])
            × (r.0.b ≡ []))

    or_take-Filled :
        (m : Mixing id) (r : Mixing id × Bool) (second : Mixing id → Mixing id × Bool)
        → Grown m r.0
        → r.1 ≡ true
        → Filled m (or_take id r second)
    unfolding or_take
    or_take-Filled m (m', true) second grown e = inl (grown, refl)
    or_take-Filled m (m', false) second grown e = absurd cc

    ab-Filled : (m : Mixing id) → Sound m → Filled m (or_take id (take_a id m) (take_b id))
    unfolding or_take
    ab-Filled m s = elim (take_a-Sound m s) [
      | inl (grown, got) ↦ or_take-Filled m (take_a id m) (take_b id) grown got
      | inr (s', e) ↦
          subst (λ r. Filled m (or_take id r (take_b id))) (sym e)
            (elim (take_b-Sound (record m { a = [] }) s') [
              | inl (grown, got) ↦ inl (grown, got)
              | inr (s'', e') ↦ subst (λ r. Filled m r) (sym e') (inr (s'', refl, refl, refl, refl))
            ])
    ]

    ba-Filled : (m : Mixing id) → Sound m → Filled m (or_take id (take_b id m) (take_a id))
    unfolding or_take
    ba-Filled m s = elim (take_b-Sound m s) [
      | inl (grown, got) ↦ or_take-Filled m (take_b id m) (take_a id) grown got
      | inr (s', e) ↦
          subst (λ r. Filled m (or_take id r (take_a id))) (sym e)
            (elim (take_a-Sound (record m { b = [] }) s') [
              | inl (grown, got) ↦ inl (grown, got)
              | inr (s'', e') ↦ subst (λ r. Filled m r) (sym e') (inr (s'', refl, refl, refl, refl))
            ])
    ]

    fill-Filled : (m : Mixing id) → Sound m → Filled m (fill id m)
    unfolding fill
    fill-Filled m s = elim (Bool-cases (length m.out % 3 == 2)) [
      | inl e ↦ rw (fill, e) (ba-Filled m s)
      | inr e ↦ rw (fill, e) (ab-Filled m s)
    ]

    -- The row is full, or the iterators are used up.
    abbrev pub Mixed : ℕ → Mixing id → Type 0
    Mixed limit m =
        Sound m × (length m.out ≤ limit) × ((length m.out ≡ limit) ⊎ ((m.a ≡ []) × (m.b ≡ [])))

    mix_loop-Mixed :
        (fuel limit : ℕ) (m : Mixing id)
        → Sound m
        → length m.out ≤ limit
        → limit ≤ fuel + length m.out
        → Mixed limit (mix_loop id fuel limit m)
    unfolding mix_loop
    mix_loop-Mixed zero limit m s h k = (s, h, inl (omega arith))
    mix_loop-Mixed (suc fuel) limit m s h k = elim (Bool-cases (ltb (length m.out) limit)) [
      | inl less ↦ elim (fill-Filled m s) [
        | inl (grown, got) ↦
            rw (mix_loop, less)
              (rw got (
                mix_loop-Mixed fuel limit (fill id m).0 grown.0 (ground (arith, grown.1, less))
                  (omega (arith, grown.1))))
        | inr (s', got, same, a, b) ↦
            rw (mix_loop, less) (rw got (s', omega (arith, same), inr (a, b)))
      ]
      | inr full ↦ rw (mix_loop, full) (s, h, inl (ground arith))
    ]

    seen_all : (seen : List ℕ) (u : A) → Ahead id seen [] u → has seen (id u) ≡ true
    seen_all seen u (inl k) = k
    seen_all seen u (inr k) = absurd k

    start-Sound : Sound (record { seen = []; a = trending; b = addon; out = [] })
    start-Sound = record {
      same = λ i. refl;
      distinct = tt;
      from_a = λ u h. h;
      from_b = λ u h. h;
      from = tt;
      ahead_a = λ u h. inr h;
      ahead_b = λ u h. inr h;
    }

    -- Of two lists, the row of a limited length has titles of these lists alone, none twice; it is no
    -- longer than the limit, and if it is shorter then it has every title of both lists.
    pub mix_lem :
        (limit : ℕ)
        → DistinctIds (map id (mix id trending addon limit))
          × All (λ u. IsIn u trending ⊎ IsIn u addon) (mix id trending addon limit)
          × (length (mix id trending addon limit) ≤ limit)
          × ((length (mix id trending addon limit) ≡ limit)
              ⊎ ((u : A)
                  → IsIn u trending ⊎ IsIn u addon
                  → has (map id (mix id trending addon limit)) (id u) ≡ true))
    unfolding mix
    mix_lem limit =
        let start : Mixing id = record { seen = []; a = trending; b = addon; out = [] } in
        let done : Mixing id = mix_loop id limit limit start in
        let (s, short, full) =
          mix_loop-Mixed limit limit start start-Sound (omega arith) (omega arith) in
        (
          s.distinct,
          s.from,
          short,
          elim full [
            | inl e ↦ inl e
            | inr (a, b) ↦ inr (λ u h. elim h [
              | inl k ↦
                  sym (s.same (id u))
                  ∙ seen_all done.seen u (subst (λ l. Ahead id done.seen l u) a (s.ahead_a u k))
              | inr k ↦
                  sym (s.same (id u))
                  ∙ seen_all done.seen u (subst (λ l. Ahead id done.seen l u) b (s.ahead_b u k))
            ])
          ],
        )
