-- ===== src/Providers/Laws.antt =====
-- The loop over the leading groups ends.
use mathlib.Core.Option.{some-injective}
use peanut_butter.Prelude.{
  ℕ, zero, suc, ◌≤◌, ◌≡◌, refl, ap, sym, ◌∙◌, List, true, false, not, ◌&&◌, is_empty, take,
  if◌then◌else◌, subst, Option, none, some, [], ◌∷◌, ◌==◌, >>=-eq-some, ◌⊎◌, inl, inr, length,
  Bool-cases, Option-cases, arith, drop_while,
}
use peanut_butter.Text.{Text, codes, trim, trim_start, strip_prefix, split_once, is_whitespace}
use peanut_butter.Text.Suffix.{
  EndsWith, EndsWith-refl, EndsWith-trans, EndsWith-cons, EndsWith-cases, drop_while-EndsWith,
  strip_prefix-EndsWith,
}
use peanut_butter.Outside.Unicode.{Unicode}
use peanut_butter.Providers.{leading_group, is_stats, tag_of, tag_loop, or_line, split_leading_tags}

behind_first :
    (c : ℕ) (s : Text) (o : Option (Text × Text)) (a b : Text)
    → ((a' : Text) → o ≡ some (a', b) → EndsWith s b × (suc (length b) ≤ length s))
    → ◌≡◌ {A = Option (Text × Text)}
        (elim o [ none ↦ none | some (x, y) ↦ some (c ∷ x, y) ])
        (some (a, b))
    → EndsWith (c ∷ s) b × (suc (length b) ≤ length (c ∷ s))
behind_first c s none a b f e = absurd cc
behind_first c s (some (x, y)) a b f e =
    let same : y ≡ b = ap (λ p. p.1) (some-injective (c ∷ x, y) (a, b) e) in
    let (ends, less) = f x (ap (λ t. some (x, t)) same) in
    (EndsWith-cons c s b ends, omega (arith, less))

-- What stands behind a character is a shorter end.
split_once-shorter :
    (s : Text) (sep : ℕ) (a b : Text)
    → split_once s sep ≡ some (a, b)
    → EndsWith s b × (suc (length b) ≤ length s)
unfolding split_once
split_once-shorter [] sep a b e = absurd cc
split_once-shorter (c ∷ s) sep a b e = elim (Bool-cases (c == sep)) [
  | inl k ↦
      let same : s ≡ b = ap (λ p. p.1) (some-injective ([], s) (a, b) (rw (split_once, k) at e)) in
      subst (λ t. EndsWith (c ∷ s) t × (suc (length t) ≤ length (c ∷ s))) same
        (EndsWith-cons c s s (EndsWith-refl s), omega arith)
  | inr k ↦
      behind_first c s (split_once s sep) a b (λ a' h. split_once-shorter s sep a' b h)
        (rw (split_once, k) at e)
]

length-EndsWith : (t s : Text) → EndsWith s t → length t ≤ length s
length-EndsWith t s h = elim (EndsWith-cases s t h) [
  | inl e ↦ rw e (omega arith)
  | inr k ↦ omega (arith, k)
]

-- A round leaves a shorter end.
group-shorter :
    (rest inner behind : Text)
    → leading_group rest ≡ some (inner, behind)
    → EndsWith rest behind × (suc (length behind) ≤ length rest)
unfolding leading_group trim_start
group-shorter rest inner behind e =
    let (after, opened, e1) = >>=-eq-some (strip_prefix rest (codes "[")) _ e in
    let ((raw, tail), closed, e2) = >>=-eq-some (split_once after b']') _ e1 in
    let (ends, less) = split_once-shorter after b']' raw tail closed in
    let same : drop_while is_whitespace tail ≡ behind =
      ap (λ (p : Text × Text). p.1)
        (some-injective (trim raw, drop_while is_whitespace tail) (inner, behind) e2) in
    let trimmed = drop_while-EndsWith is_whitespace tail in
    let whole = strip_prefix-EndsWith rest (codes "[") after opened in
    let short : suc (length (drop_while is_whitespace tail)) ≤ length rest = omega (
      arith,
      less,
      length-EndsWith after rest whole,
      length-EndsWith (drop_while is_whitespace tail) tail trimmed,
    ) in
    subst (λ t. EndsWith rest t × (suc (length t) ≤ length rest)) same
      (EndsWith-trans rest after _ whole (EndsWith-trans after tail _ ends trimmed), short)

empty_ungrouped : leading_group [] ≡ none
unfolding leading_group
empty_ungrouped = refl

-- The groups that lead a text, each trimmed, and what follows them.
abbrev pub Groups : Text → List Text → Text → Type 0
Groups s [] rest = s ≡ rest
Groups s (inner ∷ inners) rest =
    (behind : Text) × (leading_group s ≡ some (inner, behind)) × Groups behind inners rest

-- All the groups that lead a text: none leads what follows, which is an end of the text.
abbrev pub AllGroups : Text → List Text → Text → Type 0
AllGroups s inners rest = Groups s inners rest × (leading_group rest ≡ none) × EndsWith s rest

module _ (uni : Unicode) where
  -- The first group that is neither empty nor statistics, cut to 30 characters.
  abbrev pub first_tag : List Text → Option Text
  first_tag [] = none
  first_tag (inner ∷ inners) =
      if not (is_empty inner) && not (is_stats uni inner)
      then some (take 30 inner)
      else first_tag inners

  abbrev pub or_first : Option Text → List Text → Option Text
  or_first none inners = first_tag inners
  or_first (some tag) inners = some tag

  or_first-tag_of :
      (tag : Option Text) (inner : Text) (inners : List Text)
      → or_first (tag_of uni tag inner) inners ≡ or_first tag (inner ∷ inners)
  unfolding tag_of
  or_first-tag_of none inner inners =
      elim (not (is_empty inner) && not (is_stats uni inner))
        as (λ b.
          or_first (if b then some (take 30 inner) else none) inners
          ≡ (if b then some (take 30 inner) else first_tag inners)) [ true ↦ refl | false ↦ refl ]
  or_first-tag_of (some tag) inner inners = refl

  or_none : (tag : Option Text) → tag ≡ or_first tag []
  or_none none = refl
  or_none (some t) = refl

  -- The loop takes all the groups off.
  abbrev Taken : Text → Option Text → Option Text × Text → Type 0
  Taken s tag r = (inners : List Text) × AllGroups s inners r.1 × (r.0 ≡ or_first tag inners)

  tag_loop-Taken :
      (fuel : ℕ) (tag : Option Text) (s : Text)
      → length s ≤ fuel
      → Taken s tag (tag_loop uni fuel tag s)
  unfolding tag_loop
  tag_loop-Taken zero tag [] h = ([], (refl, empty_ungrouped, EndsWith-refl []), or_none tag)
  tag_loop-Taken zero tag (c ∷ s) h = absurd (omega arith)
  tag_loop-Taken (suc fuel) tag s h = elim (Option-cases (leading_group s)) [
    | inl e ↦ rw (tag_loop, e) ([], (refl, e, EndsWith-refl s), or_none tag)
    | inr ((inner, behind), e) ↦
        let (ends, less) = group-shorter s inner behind e in
        let (inners, (groups, done, rest), tags) =
          tag_loop-Taken fuel (tag_of uni tag inner) behind (omega (arith, less)) in
        let eq : tag_loop uni (suc fuel) tag s ≡ tag_loop uni fuel (tag_of uni tag inner) behind =
          rw (tag_loop, e) refl in
        subst (Taken s tag) (sym eq) (
          inner ∷ inners,
          ((behind, e, groups), done, EndsWith-trans s behind _ ends rest),
          tags ∙ or_first-tag_of tag inner inners,
        )
  ]

  or_line-cases :
      (s : Text) (r : Option Text × Text) (inners : List Text)
      → r.0 ≡ first_tag inners
      → ((is_empty r.1 ≡ false) × (or_line uni s r ≡ (first_tag inners, r.1)))
        ⊎ ((r.1 ≡ []) × (or_line uni s r ≡ (none, s)))
  unfolding or_line
  or_line-cases s (tag, []) inners e = inr (refl, refl)
  or_line-cases s (tag, c ∷ rest) inners e = inl (refl, ap (λ t. (t, c ∷ rest)) e)

  -- Taking the groups off a line ends, after as many rounds as the line has characters: what is left
  -- is an end of the trimmed line that no group leads. If it is not empty, it is returned with the
  -- first group that is neither empty nor statistics, cut to 30 characters; if it is empty, the
  -- trimmed line is returned as it is, without a tag.
  pub split_leading_tags_lem :
      (line : Text)
      → (inners : List Text) × (rest : Text) × AllGroups (trim line) inners rest
        × (((is_empty rest ≡ false) × (split_leading_tags uni line ≡ (first_tag inners, rest)))
            ⊎ ((rest ≡ []) × (split_leading_tags uni line ≡ (none, trim line))))
  unfolding split_leading_tags
  split_leading_tags_lem line =
      let s = trim line in
      let r = tag_loop uni (length s) none s in
      let (inners, groups, tag) = tag_loop-Taken (length s) none s (omega arith) in
      (inners, r.1, groups, or_line-cases s r inners tag)
