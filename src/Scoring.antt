-- ===== src/Scoring.antt =====
-- From check answers to a score (src/dodeal_ai/units/structured_intelligence/scoring.py).
pub mod Answers
pub mod Marks
pub mod Totals
pub mod Examples
use do_deal_ai.Prelude.{
  Fallible, ok, err, ◌>>=◌, ◌>>◌, ℕ, ◌+◌, ◌*◌, ◌/◌, Bool, true, false, not, ◌&&◌, ◌||◌, Option,
  none, some, List, [], ◌∷◌, ◌++◌, ◌==◌, if◌then◌else◌, length, get_elem?, any, keep_if, count_if,
  sum_of, is_some,
}
use do_deal_ai.Schemas.{
  NoteType, ComponentName, CheckName, ns_closure, Band, NoteScore, ScoreComponent, Checks,
  all_components, all_checks, is_component, is_check,
}
use do_deal_ai.TenantConfig.{TenantConfig, marks_by_true_count, band_for}

-- One of the two ways in which an answer does not fit the question.
pub data Fault : Type 0 where
  missing_check check_for_suppressed_component : Fault

-- What scoring raises: rejected answers (an OutputValidationError with the check and the fault of
-- each problem), the ValueError of a rubric that leaves no component, and the IndexErrors of a mark
-- table or a boundary table that is too short.
pub data ScoringError : Type 0 where
  output_rejected : List (CheckName × Fault) → ScoringError
  no_applicable_component no_mark no_band : ScoringError

abbrev pub Result {ℓ} : Type ℓ → Type ℓ
Result A = Fallible ScoringError A

abbrev pub or_raise {ℓ} : {A : Type ℓ} → Option A → ScoringError → Result A
or_raise none e = err e
or_raise (some a) e = ok a

-- Whether the component counts for this type under this rubric.
unfoldable pub applies : NoteType → TenantConfig → ComponentName → Bool
applies note_type config component =
    not (config.suppressed_components_by_type note_type component)
    && (not (is_component component ComponentName.deal_specifics)
        || config.deal_specifics_applicable)

unfoldable pub applicable_components : NoteType → TenantConfig → List ComponentName
applicable_components note_type config = keep_if (applies note_type config) all_components

unfoldable pub checks_of : TenantConfig → List ComponentName → List CheckName
checks_of config [] = []
checks_of config (component ∷ rest) = config.checks_by_component component ++ checks_of config rest

unfoldable pub applicable_checks : NoteType → TenantConfig → List CheckName
unfolding checks_of applicable_components
applicable_checks note_type config = checks_of config (applicable_components note_type config)

-- The problem with one check: asked and not answered, or answered and not asked.
unfoldable pub problem : List CheckName → Checks → CheckName → Option Fault
problem applicable checks check =
    let asked = any (is_check check) applicable in
    let answered = is_some (checks check) in
    if asked && not answered
    then some missing_check
    else if not asked && answered
    then some check_for_suppressed_component
    else none

problems_in : List CheckName → Checks → List CheckName → List (CheckName × Fault)
unfolding problem
problems_in applicable checks [] = []
problems_in applicable checks (check ∷ rest) =
    let later = problems_in applicable checks rest in
    elim (problem applicable checks check) [ none ↦ later | some fault ↦ (check, fault) ∷ later ]

reject_if_any : List (CheckName × Fault) → Result (Unit {0})
reject_if_any [] = ok tt
reject_if_any (p ∷ rest) = err (output_rejected (p ∷ rest))

unfoldable pub validate_checks : Checks → NoteType → TenantConfig → Result (Unit {0})
unfolding problems_in reject_if_any
validate_checks checks note_type config =
    reject_if_any (problems_in (applicable_checks note_type config) checks all_checks)

-- `checks.get(check) is True`.
abbrev pub is_true : Option Bool → Bool
is_true none = false
is_true (some answer) = answer

-- `_mark_for`: `none` is an index outside the mark table.
unfoldable pub mark_for : ComponentName → Checks → TenantConfig → Option ℕ
mark_for component checks config =
    if is_component component ComponentName.next_step_date && is_true (checks ns_closure)
    then some (config.weights component)
    else get_elem? (marks_by_true_count config component)
        (count_if (λ check. is_true (checks check)) (config.checks_by_component component))

-- The dict of marks, in the order of the components.
unfoldable pub marks_for :
    Checks → TenantConfig → List ComponentName → Result (List (ComponentName × ℕ))
unfolding mark_for
marks_for checks config [] = ok []
marks_for checks config (component ∷ rest) = do
  mark ← or_raise (mark_for component checks config) no_mark
  later ← marks_for checks config rest
  ok ((component, mark) ∷ later)

-- `marks.get(component)`.
unfoldable pub mark_in : ComponentName → List (ComponentName × ℕ) → Option ℕ
mark_in component [] = none
mark_in component ((other, mark) ∷ rest) =
    if is_component component other then some mark else mark_in component rest

-- Integer round half up of `raw` out of `denominator`, as a whole percent.
unfoldable pub percent_of : ℕ → ℕ → ℕ
percent_of raw denominator = (raw * 100 + denominator / 2) / denominator

score_row :
    TenantConfig → List ComponentName → List (ComponentName × ℕ) → ComponentName → ScoreComponent
unfolding mark_in
score_row config applicable marks component = record {
  name = component;
  mark = mark_in component marks;
  weight = config.weights component;
  suppressed = not (any (is_component component) applicable);
}

unfoldable pub score_rows :
    TenantConfig
    → List ComponentName
    → List (ComponentName × ℕ)
    → List ComponentName
    → List ScoreComponent
unfolding score_row
score_rows config applicable marks [] = []
score_rows config applicable marks (component ∷ rest) =
    score_row config applicable marks component ∷ score_rows config applicable marks rest

pub compute_score : Checks → NoteType → TenantConfig → Result NoteScore
compute_score checks note_type config = do
  validate_checks checks note_type config
  let applicable = applicable_components note_type config
  let denominator = sum_of config.weights applicable
  or_raise (if denominator == 0 then none else some tt) no_applicable_component
  marks ← marks_for checks config applicable
  let total = percent_of (sum_of (λ entry. entry.1) marks) denominator
  band ← or_raise (band_for config total) no_band
  ok (record {
    total = total;
    band = band;
    denominator = denominator;
    components = score_rows config applicable marks all_components;
  })
