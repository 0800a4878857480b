-- ===== src/Scoring/Answers.antt =====
-- Which answers are accepted
-- (src/dodeal_ai/units/structured_intelligence/scoring.py, `validate_checks`).
use do_deal_ai.Prelude.{
  err, ok, ◌≡◌, ◌↔◌, refl, none, List, [], ◌∷◌, arith, any, is_some, Option-cases, ◌⊎◌, inl, inr,
}
use do_deal_ai.Schemas.{
  NoteType, CheckName, Checks, all_checks, is_check, wh_outcome, wh_action, cs_present,
  cs_own_terms, ns_action, ns_date, ns_closure, ds_figures, ds_subject, ds_timing, cl_readable,
  cl_substance,
}
use do_deal_ai.TenantConfig.{TenantConfig}
use do_deal_ai.Scoring.{
  Fault, output_rejected, applicable_checks, problem, problems_in, validate_checks, reject_if_any,
}

-- Exactly the checks that are asked of this note have an answer.
abbrev pub AnswersExactly : Checks → NoteType → TenantConfig → Type 0
AnswersExactly checks note_type config =
    (check : CheckName)
    → is_some (checks check) ≡ any (is_check check) (applicable_checks note_type config)

abbrev Every : (CheckName → Type 0) → List CheckName → Type 0
Every P [] = Unit
Every P (check ∷ rest) = P check × Every P rest

every_check : (P : CheckName → Type 0) → Every P all_checks → (check : CheckName) → P check
every_check P e wh_outcome = e.0
every_check P e wh_action = e.1.0
every_check P e cs_present = e.1.1.0
every_check P e cs_own_terms = e.1.1.1.0
every_check P e ns_action = e.1.1.1.1.0
every_check P e ns_date = e.1.1.1.1.1.0
every_check P e ns_closure = e.1.1.1.1.1.1.0
every_check P e ds_figures = e.1.1.1.1.1.1.1.0
every_check P e ds_subject = e.1.1.1.1.1.1.1.1.0
every_check P e ds_timing = e.1.1.1.1.1.1.1.1.1.0
every_check P e cl_readable = e.1.1.1.1.1.1.1.1.1.1.0
every_check P e cl_substance = e.1.1.1.1.1.1.1.1.1.1.1.0

module _ (applicable : List CheckName) (checks : Checks) where
  abbrev Fits : CheckName → Type 0
  Fits check = is_some (checks check) ≡ any (is_check check) applicable

  problem-none : (check : CheckName) → problem applicable checks check ≡ none → Fits check
  unfolding problem
  problem-none check h = ground arith

  none-problem : (check : CheckName) → Fits check → problem applicable checks check ≡ none
  unfolding problem
  none-problem check h = ground arith

  problems_in-nil : (cs : List CheckName) → problems_in applicable checks cs ≡ [] → Every Fits cs
  unfolding problems_in
  problems_in-nil [] h = tt
  problems_in-nil (check ∷ rest) h = elim (Option-cases (problem applicable checks check)) [
    | inl e ↦ (problem-none check e, problems_in-nil rest (ground arith))
    | inr (fault, e) ↦ absurd (ground arith)
  ]

  nil-problems_in :
      (cs : List CheckName)
      → ((check : CheckName) → Fits check)
      → problems_in applicable checks cs ≡ []
  unfolding problems_in
  nil-problems_in [] h = refl
  nil-problems_in (check ∷ rest) h =
      ground (arith, none-problem check (h check), nil-problems_in rest h)

reject_if_any-ok : (ps : List (CheckName × Fault)) → reject_if_any ps ≡ ok tt → ps ≡ []
unfolding reject_if_any
reject_if_any-ok [] h = refl
reject_if_any-ok (p ∷ ps) h = cc

-- The answers pass exactly when every check that is asked of a note of this type is answered and no
-- other check is.
pub validate_checks_iff :
    (checks : Checks) (note_type : NoteType) (config : TenantConfig)
    → (validate_checks checks note_type config ≡ ok tt) ↔ AnswersExactly checks note_type config
unfolding validate_checks
validate_checks_iff checks note_type config =
    let asked : List CheckName = applicable_checks note_type config in
    (
      λ h. every_check (Fits asked checks) (
          problems_in-nil asked checks all_checks
            (reject_if_any-ok (problems_in asked checks all_checks) h)),
      λ h. rw (nil-problems_in asked checks all_checks h),
    )

reject_if_any-cases :
    (ps : List (CheckName × Fault))
    → (reject_if_any ps ≡ ok tt) ⊎ (reject_if_any ps ≡ err (output_rejected ps))
unfolding reject_if_any
reject_if_any-cases [] = inl refl
reject_if_any-cases (p ∷ ps) = inr refl

-- Every refusal is of the answers, with the list of problems.
pub validate_checks-cases :
    (checks : Checks) (note_type : NoteType) (config : TenantConfig)
    → (validate_checks checks note_type config ≡ ok tt)
      ⊎ ((ps : List (CheckName × Fault)) × (validate_checks checks note_type config
            ≡ err (output_rejected ps)))
unfolding validate_checks
validate_checks-cases checks note_type config =
    let ps : List (CheckName × Fault) =
      problems_in (applicable_checks note_type config) checks all_checks in
    elim (reject_if_any-cases ps) [ inl e ↦ inl e | inr e ↦ inr (ps, e) ]
