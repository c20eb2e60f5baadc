-- ===== src/Sources/Gather.antt =====
-- backend/src/sources/mod.rs: `gather`, `enough`, `check_links`, `collapse_mirrors`.
-- A run of `gather` is given by the sequence in which the providers' futures complete, each with
-- its time since the start. Indexing past the end, which would panic, is `none`.
pub mod Said
pub mod Laws
use peanut_butter.Prelude.{
  ℕ, zero, suc, ◌+◌, Bool, true, false, Option, none, some, List, [], ◌∷◌, ◌++◌, ◌&&◌, ◌||◌, not,
  ◌==◌, if◌then◌else◌, leb, leb_ℤ, flatten, map, filter, get_elem?, set, length, take, replicate,
  ◌>>=◌, is_empty, is_some, ℤ, pos,
}
use peanut_butter.Text.{Text, codes, text_eq}
use peanut_butter.Sources.Types.{StreamSource, is_http}

pub data Outcome : Type 0 where
  found : ℕ → Outcome
  failed : Text → Outcome
  timed_out : Outcome
  cut_short : Outcome

pub record Report : Type 0 where
  pub label : Text
  pub outcome : Outcome
  pub elapsed : ℕ

-- What a provider's future completes with: its own result, or the end of its time limit.
pub data Answer : Type 0 where
  answered : List StreamSource → Answer
  refused : Text → Answer
  elapsed : Answer

-- The provider with this index completes at this time.
pub record Completion : Type 0 where
  pub at : ℕ
  pub provider : ℕ
  pub answer : Answer

-- What `enough` counts.
unfoldable pub is_good : StreamSource → Bool
unfolding is_http
is_good s = is_http s || not (text_eq s.health (codes "unknown")) && leb_ℤ (pos 5) s.seeders

unfoldable pub enough : List StreamSource → Bool
unfolding is_good
enough sources = leb 4 (length (take 4 (filter is_good sources)))

unfoldable pub tag : Text → StreamSource → StreamSource
tag label s = if is_empty s.providers then record s { providers = label ∷ [] } else s

pub record Gathered : Type 0 where
  pub found_lists : List (List StreamSource)
  pub reports : List (Option Report)
  pub cutoff : Option ℕ

-- The results that an answer brings, and the outcome that is reported.
unfoldable pub lists_of : Text → Answer → List (List StreamSource)
unfolding tag
lists_of label (answered sources) = map (tag label) sources ∷ []
lists_of label (refused e) = []
lists_of label elapsed = []

unfoldable pub outcome_of : Answer → Outcome
outcome_of (answered sources) = found (length sources)
outcome_of (refused e) = failed e
outcome_of elapsed = timed_out

-- `reports[i] = Some(…)`.
unfoldable pub report : List (Option Report) → ℕ → Report → Option (List (Option Report))
report rs i r = do _ ← get_elem? rs i; some (set rs i (some r))

-- The body of the loop, once a future has completed; `rest` are the ones still pending.
unfoldable pub hear : List Text → ℕ → Gathered → Completion → List Completion → Option Gathered
unfolding lists_of outcome_of report enough
hear labels grace g c rest = do
  label ← get_elem? labels c.provider
  let lists = g.found_lists ++ lists_of label c.answer
  reports ←
      report g.reports c.provider
        (record { label = label; outcome = outcome_of c.answer; elapsed = c.at })
  some (record {
    found_lists = lists;
    reports = reports;
    cutoff =
        if not (is_some g.cutoff) && not (is_empty rest) && enough (flatten lists)
        then some (c.at + grace)
        else g.cutoff;
  })

-- Whether the loop stops before this completion: `timeout_at` prefers a future that is ready.
unfoldable pub is_late : Option ℕ → Completion → Bool
is_late none c = false
is_late (some at) c = not (leb c.at at)

-- The time of the cutoff, by which a loop that is cut short has ended.
abbrev pub stop_at : Option ℕ → ℕ → ℕ
stop_at none now = now
stop_at (some at) now = at

-- The loop, with the time at which it ends.
unfoldable pub gather_loop : List Text → ℕ → ℕ → Gathered → List Completion → Option (Gathered × ℕ)
unfolding hear is_late
gather_loop labels grace now g [] = some (g, now)
gather_loop labels grace now g (c ∷ rest) = elim (is_late g.cutoff c) [
  | true ↦ some (g, stop_at g.cutoff now)
  | false ↦ (do g' ← hear labels grace g c rest; gather_loop labels grace c.at g' rest)
]

-- A provider that was not heard was cut short.
unfoldable pub final_reports : List Text → List (Option Report) → ℕ → List Report
final_reports labels [] now = []
final_reports [] (r ∷ rs) now = []
final_reports (l ∷ labels) (none ∷ rs) now =
    record { label = l; outcome = cut_short; elapsed = now } ∷ final_reports labels rs now
final_reports (l ∷ labels) (some r ∷ rs) now = r ∷ final_reports labels rs now

unfoldable pub gather :
    List Text → ℕ → List Completion → Option (List (List StreamSource) × List Report)
unfolding gather_loop final_reports
gather labels grace completions = do
  (g, now) ←
      gather_loop labels grace 0
        (record { found_lists = []; reports = replicate (length labels) none; cutoff = none })
        completions
  some (g.found_lists, final_reports labels g.reports now)
