-- ===== src/Sources/Gather/Said.antt =====
-- What the answers of a run amount to.
use peanut_butter.Prelude.{
  get_or, ◌==◌, ℕ, zero, suc, ◌<◌, ◌≡◌, refl, sym, ap, ◌∙◌, true, Option, none, some, List, [], ◌∷◌,
  ◌++◌, if◌then◌else◌, flatten, filter, get_elem?, length, arith, All, append_assoc, length-take,
  filter-append, length-append,
}
use peanut_butter.Text.{Text}
use peanut_butter.Sources.Types.{StreamSource}
use peanut_butter.Sources.Gather.{
  Outcome, cut_short, Report, Completion, is_good, enough, lists_of, outcome_of,
}

-- Each completion names a provider.
abbrev pub InRange : List Text → List Completion → Type 0
InRange labels = All (λ c. c.provider < length labels)

pub get_elem?-lt {ℓ} :
    {A : Type ℓ} (xs : List A) (i : ℕ) → i < length xs → (a : A) × (get_elem? xs i ≡ some a)
get_elem?-lt [] i h = absurd (omega arith)
get_elem?-lt (x ∷ xs) zero h = (x, refl)
get_elem?-lt (x ∷ xs) (suc i) h = get_elem?-lt xs i (omega arith)

pub flatten-append {ℓ} :
    {A : Type ℓ} (xss yss : List (List A)) → flatten (xss ++ yss) ≡ flatten xss ++ flatten yss
unfolding flatten
flatten-append [] yss = refl
flatten-append (xs ∷ xss) yss =
    ap (◌++◌ xs) (flatten-append xss yss) ∙ sym (append_assoc xs (flatten xss) (flatten yss))

-- A good list stays good when more is found.
pub enough-append : (xs ys : List StreamSource) → enough xs ≡ true → enough (xs ++ ys) ≡ true
unfolding enough
enough-append xs ys h = rw filter-append (
    ground (
      arith,
      length-take 4 (filter is_good xs),
      length-take 4 (filter is_good xs ++ filter is_good ys),
      length-append (filter is_good xs) (filter is_good ys),
    ))

-- The lists that the answers of some completions bring, in order.
unfoldable pub all_lists : List Text → List Completion → List (List StreamSource)
all_lists labels [] = []
all_lists labels (c ∷ cs) = lists_of (get_or labels c.provider []) c.answer ++ all_lists labels cs

-- The outcome of a provider once some completions were heard: that of its own, if it was heard.
unfoldable pub verdict : Outcome → ℕ → List Completion → Outcome
verdict o i [] = o
verdict o i (c ∷ cs) = verdict (if c.provider == i then outcome_of c.answer else o) i cs

abbrev pub outcome_or : Option Report → Outcome
outcome_or none = cut_short
outcome_or (some r) = r.outcome

abbrev pub Labelled : List Text → ℕ → Option Report → Type 0
Labelled labels i none = Unit
Labelled labels i (some r) = get_elem? labels i ≡ some r.label

-- What is reported of the provider `i`.
abbrev pub Says : List Text → List (Option Report) → Outcome → ℕ → Type 0
Says labels rs v i =
    (o : Option Report) × (get_elem? rs i ≡ some o) × (outcome_or o ≡ v) × Labelled labels i o

pub verdict-snoc :
    (o : Outcome) (i : ℕ) (cs : List Completion) (c : Completion)
    → verdict o i (cs ++ c ∷ []) ≡ (if c.provider == i then outcome_of c.answer else verdict o i cs)
unfolding verdict
verdict-snoc o i [] c = refl
verdict-snoc o i (d ∷ cs) c =
    verdict-snoc (if d.provider == i then outcome_of d.answer else o) i cs c

pub all_lists-append :
    (labels : List Text) (cs ds : List Completion)
    → all_lists labels (cs ++ ds) ≡ all_lists labels cs ++ all_lists labels ds
unfolding all_lists
all_lists-append labels [] ds = refl
all_lists-append labels (c ∷ cs) ds =
    ap (◌++◌ (lists_of (get_or labels c.provider []) c.answer)) (all_lists-append labels cs ds)
    ∙ sym (append_assoc (lists_of (get_or labels c.provider []) c.answer) (all_lists labels cs) _)
