-- ===== src/Sources/Gather/Laws.antt =====
-- What a run of `gather` loses and what it does not.
use mathlib.Core.Option.{some-injective}
use native.Mathlib.Decide.{ℕ_discrete}
use peanut_butter.Prelude.{
  get_or, get_elem?-set_self, get_elem?-set_ne, subst, ◌⊎◌, ℕ, zero, suc, ◌+◌, ◌<◌, ◌≡◌, refl, sym,
  ap, ◌∙◌, Bool, true, Option, none, some, List, [], ◌∷◌, ◌++◌, ◌&&◌, not, if◌then◌else◌, flatten,
  get_elem?, set, length, length-set, replicate, length-replicate, is_some, is_empty, arith,
  Bool-cases, inl, inr, append_assoc, append-nil,
}
use peanut_butter.Text.{Text}
use peanut_butter.Sources.Types.{StreamSource}
use peanut_butter.Sources.Gather.{
  Outcome, cut_short, Report, Completion, enough, Gathered, lists_of, outcome_of, report, hear,
  is_late, stop_at, gather_loop, final_reports, gather,
}
use peanut_butter.Sources.Gather.Said.{
  InRange, get_elem?-lt, flatten-append, enough-append, all_lists, verdict, Says, verdict-snoc,
  all_lists-append,
}

-- The invariant of the loop, once the completions `heard` are handled.
record Inv (labels : List Text) (heard : List Completion) (g : Gathered) : Type 0 where
  brought : g.found_lists ≡ all_lists labels heard
  sized : length g.reports ≡ length labels
  says : (i : ℕ) → i < length labels → Says labels g.reports (verdict cut_short i heard) i
  cut : is_some g.cutoff ≡ true → enough (flatten g.found_lists) ≡ true

get_or-get_elem? :
    (labels : List Text) (i : ℕ) (l : Text) → get_elem? labels i ≡ some l → get_or labels i [] ≡ l
get_or-get_elem? [] i l e = cc
get_or-get_elem? (x ∷ labels) zero l e = some-injective x l e
get_or-get_elem? (x ∷ labels) (suc i) l e = get_or-get_elem? labels i l e

all_lists_one :
    (labels : List Text) (c : Completion) (l : Text)
    → get_elem? labels c.provider ≡ some l
    → all_lists labels (c ∷ []) ≡ lists_of l c.answer
unfolding all_lists
all_lists_one labels c l e =
    append-nil _ ∙ ap (λ t. lists_of t c.answer) (get_or-get_elem? labels c.provider l e)

cut_kept :
    (before now : List StreamSource) (old : Option ℕ) (new : ℕ) (waiting : Bool)
    → (is_some old ≡ true → enough now ≡ true)
    → is_some (if not (is_some old) && waiting && enough now then some new else old) ≡ true
    → enough now ≡ true
cut_kept before now none new waiting h e = ground arith
cut_kept before now (some t) new waiting h e = h refl

hear-Says :
    (labels : List Text) (heard : List Completion) (rs : List (Option Report)) (c : Completion)
    (l : Text) (i : ℕ)
    → get_elem? labels c.provider ≡ some l
    → c.provider < length rs
    → Says labels rs (verdict cut_short i heard) i
    → Says labels
        (set rs c.provider
          (some (record { label = l; outcome = outcome_of c.answer; elapsed = c.at })))
        (verdict cut_short i (heard ++ c ∷ []))
        i
hear-Says labels heard rs c l i e h (o, at, v, n) = elim (ℕ_discrete c.provider i) [
  | yes p ↦
      subst (λ k. Says labels rs' (verdict cut_short k (heard ++ c ∷ [])) k) p
        (
          some r,
          get_elem?-set_self rs c.provider (some r) h,
          ground (arith, verdict-snoc cut_short c.provider heard c),
          e,
        )
  | no p ↦
      (o, get_elem?-set_ne rs (some r) p ∙ at, ground (arith, verdict-snoc cut_short i heard c), n)
]
  where
    r : Report
    r = record { label = l; outcome = outcome_of c.answer; elapsed = c.at }

    rs' : List (Option Report)
    rs' = set rs c.provider (some r)

hear-Inv :
    (labels : List Text) (grace : ℕ) (heard : List Completion) (g : Gathered) (c : Completion)
    (rest : List Completion)
    → c.provider < length labels
    → Inv labels heard g
    → (g' : Gathered) × (hear labels grace g c rest ≡ some g') × Inv labels (heard ++ c ∷ []) g'
unfolding hear report
hear-Inv labels grace heard g c rest lt v =
    let (l, named) = get_elem?-lt labels c.provider lt in
    let (o, at) = get_elem?-lt g.reports c.provider (omega (arith, v.sized)) in
    let r : Report = record { label = l; outcome = outcome_of c.answer; elapsed = c.at } in
    let lists = g.found_lists ++ lists_of l c.answer in
    let all : lists ≡ all_lists labels (heard ++ c ∷ []) =
      ap (λ t. t ++ lists_of l c.answer) v.brought
      ∙ ap (◌++◌ (all_lists labels heard)) (sym (all_lists_one labels c l named))
      ∙ sym (all_lists-append labels heard (c ∷ [])) in
    (
      record {
        found_lists = lists;
        reports = set g.reports c.provider (some r);
        cutoff =
            if not (is_some g.cutoff) && not (is_empty rest) && enough (flatten lists)
            then some (c.at + grace)
            else g.cutoff;
      },
      rw (named, at),
      record {
        brought = all;
        sized = length-set g.reports c.provider (some r) ∙ v.sized;
        says = λ i h.
            hear-Says labels heard g.reports c l i named (omega (arith, v.sized)) (v.says i h);
        cut =
            cut_kept (flatten g.found_lists) (flatten lists) g.cutoff (c.at + grace)
              (not (is_empty rest)) (λ e. rw flatten-append (enough-append _ _ (v.cut e)));
      },
    )

late-is_some : (o : Option ℕ) (c : Completion) → is_late o c ≡ true → is_some o ≡ true
unfolding is_late
late-is_some none c e = cc
late-is_some (some t) c e = refl

-- The completions that a run handles, and why it stops: nothing is pending, or enough was found.
gather_loop-Inv :
    (labels : List Text) (grace now : ℕ) (heard : List Completion) (g : Gathered)
    (cs : List Completion)
    → InRange labels cs
    → Inv labels heard g
    → (used : List Completion) × (rest : List Completion) × (g' : Gathered) × (end : ℕ) × (cs
        ≡ used ++ rest)
      × (gather_loop labels grace now g cs ≡ some (g', end))
      × Inv labels (heard ++ used) g'
      × ((rest ≡ []) ⊎ (enough (flatten g'.found_lists) ≡ true))
unfolding gather_loop
gather_loop-Inv labels grace now heard g [] h v =
    ([], [], g, now, refl, refl, subst (λ l. Inv labels l g) (sym (append-nil heard)) v, inl refl)
gather_loop-Inv labels grace now heard g (c ∷ cs) (lt, h) v =
    elim (Bool-cases (is_late g.cutoff c)) [
      | inl late ↦ (
        [],
        c ∷ cs,
        g,
        stop_at g.cutoff now,
        refl,
        rw (late, gather_loop),
        subst (λ l. Inv labels l g) (sym (append-nil heard)) v,
        inr (v.cut (late-is_some g.cutoff c late)),
      )
      | inr soon ↦
          let (g1, one, v1) = hear-Inv labels grace heard g c cs lt v in
          let (used, rest, g', end, parts, ran, v', why) =
            gather_loop-Inv labels grace c.at (heard ++ c ∷ []) g1 cs h v1 in
          (
            c ∷ used,
            rest,
            g',
            end,
            ap (◌∷◌ c) parts,
            rw (soon, one, gather_loop) ran,
            subst (λ l. Inv labels l g') (append_assoc heard (c ∷ []) used) v',
            why,
          )
    ]

final_report :
    (labels : List Text) (rs : List (Option Report)) (now : ℕ) (v : Outcome) (i : ℕ)
    → i < length labels
    → Says labels rs v i
    → (r : Report) × (get_elem? (final_reports labels rs now) i ≡ some r)
      × (get_elem? labels i ≡ some r.label)
      × (r.outcome ≡ v)
unfolding final_reports
final_report [] rs now v i h w = absurd (omega arith)
final_report (l ∷ labels) [] now v i h (o, at, out, n) = cc
final_report (l ∷ labels) (none ∷ rs) now v zero h (none, at, out, n) =
    (record { label = l; outcome = cut_short; elapsed = now }, refl, refl, out)
final_report (l ∷ labels) (none ∷ rs) now v zero h (some r, at, out, n) = cc
final_report (l ∷ labels) (some r ∷ rs) now v zero h (none, at, out, n) = cc
final_report (l ∷ labels) (some r ∷ rs) now v zero h (some r', at, out, n) =
    let same : r ≡ r' = some-injective r r' (some-injective (some r) (some r') at) in
    (r, refl, subst (λ t. some l ≡ some t.label) (sym same) n, ap (λ t. t.outcome) same ∙ out)
final_report (l ∷ labels) (none ∷ rs) now v (suc i) h w =
    final_report labels rs now v i (omega arith) w
final_report (l ∷ labels) (some r ∷ rs) now v (suc i) h w =
    final_report labels rs now v i (omega arith) w

replicate-none :
    (labels : List Text) (i : ℕ)
    → i < length labels
    → Says labels (replicate (length labels) none) cut_short i
replicate-none [] i h = absurd (omega arith)
replicate-none (l ∷ labels) zero h = (none, refl, refl, tt)
replicate-none (l ∷ labels) (suc i) h = replicate-none labels i (omega arith)

start-Inv :
    (labels : List Text)
    → Inv labels []
        (record { found_lists = []; reports = replicate (length labels) none; cutoff = none })
unfolding all_lists verdict
start-Inv labels = record {
  brought = refl;
  sized = length-replicate (length labels) none;
  says = replicate-none labels;
  cut = λ e. cc;
}

-- How a run that handled the completions `used` and left out `rest` answers.
abbrev pub Accounts : List Text → ℕ → List Completion → List Completion → List Completion → Type 0
Accounts labels grace cs used rest =
    (lists : List (List StreamSource)) × (reports : List Report) × (cs ≡ used ++ rest)
    × (gather labels grace cs ≡ some (lists, reports))
    × (lists ≡ all_lists labels used)
    × ((i : ℕ)
        → i < length labels
        → (r : Report) × (get_elem? reports i ≡ some r)
          × (get_elem? labels i ≡ some r.label)
          × (r.outcome ≡ verdict cut_short i used))
    × ((rest ≡ []) ⊎ (enough (flatten lists) ≡ true))

-- A run handles a first part `used` of the completions, and it leaves some out only if what it
-- found is enough. It returns the tagged lists of all answers in that part, in order, so that a
-- provider that fails or times out takes nothing from the others; and one report for each provider,
-- under its label, with its own outcome if it was handled and as cut short if not. Each completion
-- must name a provider.
pub gather-Accounts :
    (labels : List Text) (grace : ℕ) (cs : List Completion)
    → InRange labels cs
    → (used : List Completion) × (rest : List Completion) × Accounts labels grace cs used rest
unfolding gather
gather-Accounts labels grace cs h =
    let (used, rest, g, end, parts, ran, v, why) =
      gather_loop-Inv labels grace 0 [] _ cs h (start-Inv labels) in
    (
      used,
      rest,
      (
        g.found_lists,
        final_reports labels g.reports end,
        parts,
        rw ran,
        v.brought,
        (λ i lt. final_report labels g.reports end _ i lt (v.says i lt)),
        why,
      ),
    )
