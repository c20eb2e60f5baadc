-- ===== src/Cache/Laws.antt =====
-- Which requests are taken for harmless.
use peanut_butter.Prelude.{
  ◌≡◌, refl, sym, Bool, true, false, Option, none, some, List, [], ◌∷◌, ◌⊎◌, inl, inr, All, all,
  Bool-cases, arith, subst,
}
use peanut_butter.Text.{Text}
use peanut_butter.Outside.Graphql.{Selection, Operation}
use peanut_butter.Cache.{RequestKind, is_mutation, is_personal, classify_loop, kind_of, classify}

-- An operation that does not write.
abbrev pub IsReading : Operation → Type 0
IsReading op = is_mutation op.ty ≡ false

-- An operation that writes at most the rows of its own device.
abbrev pub IsHarmless : Operation → Type 0
IsHarmless op = IsReading op ⊎ All (λ item. is_personal item ≡ true) op.items

contradiction : {b : Bool} → b ≡ true → ¬ (b ≡ false)
contradiction h k = cc

all-All : (p : Selection → Bool) (xs : List Selection) → all p xs ≡ true → All (λ x. p x ≡ true) xs
all-All p [] h = tt
all-All p (x ∷ xs) h = ground (arith, all-All p xs)

All-all : (p : Selection → Bool) (xs : List Selection) → All (λ x. p x ≡ true) xs → all p xs ≡ true
All-all p [] h = refl
All-all p (x ∷ xs) h = rw (h.0) (All-all p xs h.1)

IsReading-IsHarmless : (ops : List Operation) → All IsReading ops → All IsHarmless ops
IsReading-IsHarmless [] h = tt
IsReading-IsHarmless (op ∷ ops) h = (inl h.0, IsReading-IsHarmless ops h.1)

-- How the loop ends.
abbrev IsSeen : Bool → List Operation → Option Bool → Type 0
IsSeen saw ops r =
    (r ≡ none × ¬ (All IsHarmless ops))
    ⊎ (r ≡ some true × All IsHarmless ops × ((saw ≡ true) ⊎ ¬ (All IsReading ops)))
    ⊎ (r ≡ some saw × All IsReading ops)

reading-IsSeen :
    (saw : Bool) (op : Operation) (ops : List Operation) (r : Option Bool)
    → IsReading op
    → IsSeen saw ops r
    → IsSeen saw (op ∷ ops) r
reading-IsSeen saw op ops r e (inl (k, n)) = inl (k, λ h. n h.1)
reading-IsSeen saw op ops r e (inr (inl (k, h, inl s))) = inr (inl (k, (inl e, h), inl s))
reading-IsSeen saw op ops r e (inr (inl (k, h, inr n))) =
    inr (inl (k, (inl e, h), inr (λ g. n g.1)))
reading-IsSeen saw op ops r e (inr (inr (k, h))) = inr (inr (k, (e, h)))

writing-IsSeen :
    (saw : Bool) (op : Operation) (ops : List Operation) (r : Option Bool)
    → is_mutation op.ty ≡ true
    → IsHarmless op
    → IsSeen true ops r
    → IsSeen saw (op ∷ ops) r
writing-IsSeen saw op ops r w a (inl (k, n)) = inl (k, λ h. n h.1)
writing-IsSeen saw op ops r w a (inr (inl (k, h, _))) =
    inr (inl (k, (a, h), inr (λ g. contradiction w g.0)))
writing-IsSeen saw op ops r w a (inr (inr (k, h))) =
    inr (inl (k, (a, IsReading-IsHarmless ops h), inr (λ g. contradiction w g.0)))

harmful :
    (op : Operation)
    → is_mutation op.ty ≡ true
    → all is_personal op.items ≡ false
    → ¬ (IsHarmless op)
harmful op w q (inl f) = contradiction w f
harmful op w q (inr a) = contradiction (All-all is_personal op.items a) q

classify_loop-IsSeen : (saw : Bool) (ops : List Operation) → IsSeen saw ops (classify_loop saw ops)
unfolding classify_loop
classify_loop-IsSeen saw [] = inr (inr (refl, tt))
classify_loop-IsSeen saw (op ∷ ops) = elim (Bool-cases (is_mutation op.ty)) [
  | inr e ↦
      let eq : classify_loop saw (op ∷ ops) ≡ classify_loop saw ops = rw (e) refl in
      subst (IsSeen saw (op ∷ ops)) (sym eq)
        (reading-IsSeen saw op ops (classify_loop saw ops) e (classify_loop-IsSeen saw ops))
  | inl w ↦ elim (Bool-cases (all is_personal op.items)) [
    | inl p ↦
        let eq : classify_loop saw (op ∷ ops) ≡ classify_loop true ops = rw (w, p) refl in
        subst (IsSeen saw (op ∷ ops)) (sym eq) (
          writing-IsSeen saw op ops (classify_loop true ops) w
            (inr (all-All is_personal op.items p)) (classify_loop-IsSeen true ops))
    | inr q ↦
        let eq : classify_loop saw (op ∷ ops) ≡ none = rw (w, q) refl in
        inl (eq, λ h. harmful op w q h.0)
  ]
]

-- A request that parses is taken for global exactly if one of its operations may write more than
-- the rows of its own device, whatever stands before or behind that operation; for personal if none
-- does and one writes; and else for a query.
pub classify_lem :
    (parse_query : Text → Option (List Operation)) (q : Text) (ops : List Operation)
    → parse_query q ≡ some ops
    → (classify parse_query q ≡ RequestKind.global_mutation × ¬ (All IsHarmless ops))
      ⊎ (classify parse_query q ≡ RequestKind.personal_mutation
          × All IsHarmless ops
          × ¬ (All IsReading ops))
      ⊎ (classify parse_query q ≡ RequestKind.query × All IsReading ops)
unfolding classify kind_of
classify_lem parse_query q ops h = rw (classify, h) (of_seen (classify_loop-IsSeen false ops))
  where
    of_seen :
        {r : Option Bool}
        → IsSeen false ops r
        → (kind_of r ≡ RequestKind.global_mutation × ¬ (All IsHarmless ops))
          ⊎ (kind_of r ≡ RequestKind.personal_mutation × All IsHarmless ops × ¬ (All IsReading ops))
          ⊎ (kind_of r ≡ RequestKind.query × All IsReading ops)
    of_seen (inl (k, n)) = inl (rw k refl, n)
    of_seen (inr (inl (k, a, inl s))) = absurd (contradiction s refl)
    of_seen (inr (inl (k, a, inr n))) = inr (inl (rw k refl, a, n))
    of_seen (inr (inr (k, a))) = inr (inr (rw k refl, a))
