-- ===== src/Scoring/Totals.antt =====
-- The total of a score (src/dodeal_ai/units/structured_intelligence/scoring.py, `compute_score`).
pub mod Bounds
pub mod Extremes
pub mod Rows
pub mod Gap
use do_deal_ai.Prelude.{
  err, ok, ◌>>=◌, ◌>>◌, ℕ, zero, suc, ◌+◌, ◌*◌, ◌/◌, ◌≤◌, ◌<◌, Bool, true, false, not, ◌≡◌, ◌≢◌,
  refl, ap, ◌⊎◌, inl, inr, sym, ◌∙◌, Option-cases, Option, none, some, List, [], ◌∷◌, arith, sum_of,
  map, if◌then◌else◌, ◌==◌, Bool-cases, ==→eq,
}
use do_deal_ai.Schemas.{
  NoteType, ComponentName, CheckName, Band, NoteScore, ScoreComponent, Checks, all_components,
}
use do_deal_ai.TenantConfig.{TenantConfig, band_for}
use do_deal_ai.Scoring.{
  Result, ScoringError, output_rejected, no_applicable_component, no_band, Fault, or_raise,
  validate_checks, applicable_components, marks_for, percent_of, score_rows, compute_score,
}
use do_deal_ai.Scoring.Answers.{AnswersExactly, validate_checks_iff, validate_checks-cases}
use do_deal_ai.Scoring.Marks.{mark_value, marks_for_lem, sum_of-marks}

-- The weight that counts for this type, and the marks that were earned of it.
abbrev pub denominator_of : NoteType → TenantConfig → ℕ
denominator_of note_type config = sum_of config.weights (applicable_components note_type config)

abbrev pub raw_of : Checks → NoteType → TenantConfig → ℕ
raw_of checks note_type config =
    sum_of (mark_value checks config) (applicable_components note_type config)

abbrev pub total_of : Checks → NoteType → TenantConfig → ℕ
total_of checks note_type config =
    percent_of (raw_of checks note_type config) (denominator_of note_type config)

abbrev pub score_of : Checks → NoteType → TenantConfig → Band → NoteScore
score_of checks note_type config band = record {
  total = total_of checks note_type config;
  band = band;
  denominator = denominator_of note_type config;
  components =
      score_rows config (applicable_components note_type config)
        (map (λ c. (c, mark_value checks config c)) (applicable_components note_type config))
        all_components;
}

pub compute_score_lem :
    (checks : Checks) (note_type : NoteType) (config : TenantConfig) (band : Band)
    → AnswersExactly checks note_type config
    → 0 < denominator_of note_type config
    → band_for config (total_of checks note_type config) ≡ some band
    → compute_score checks note_type config ≡ ok (score_of checks note_type config band)
unfolding compute_score
compute_score_lem checks note_type config band answered positive banded =
    let nonzero : (denominator_of note_type config == 0) ≡ false = ground arith in
    rw (
      (validate_checks_iff checks note_type config).1 answered,
      nonzero,
      marks_for_lem checks config (applicable_components note_type config),
      sum_of-marks checks config (applicable_components note_type config),
      banded,
    )

ok-injective : {a b : NoteScore} → (let r : Result NoteScore = ok a in r) ≡ ok b → a ≡ b
ok-injective h = ground arith

-- What a computed score says of its input.
pub record IsScored (checks : Checks) (note_type : NoteType) (config : TenantConfig) (s : NoteScore)
    : Type 0 where
  pub answered : AnswersExactly checks note_type config
  pub positive : 0 < denominator_of note_type config
  pub banded : band_for config (total_of checks note_type config) ≡ some s.band
  pub computed : s ≡ score_of checks note_type config s.band

-- What can come back: rejected answers, a rubric with nothing to score, no band, or a score.
pub data Outcome (checks : Checks) (note_type : NoteType) (config : TenantConfig) : Type 0 where
  rejected :
      (problems : List (CheckName × Fault))
      → validate_checks checks note_type config ≡ err (output_rejected problems)
      → compute_score checks note_type config ≡ err (output_rejected problems)
      → Outcome checks note_type config
  nothing_applies :
      AnswersExactly checks note_type config
      → denominator_of note_type config ≡ 0
      → compute_score checks note_type config ≡ err no_applicable_component
      → Outcome checks note_type config
  unbanded :
      0 < denominator_of note_type config
      → band_for config (total_of checks note_type config) ≡ none
      → compute_score checks note_type config ≡ err no_band
      → Outcome checks note_type config
  scored :
      (band : Band)
      → AnswersExactly checks note_type config
      → 0 < denominator_of note_type config
      → band_for config (total_of checks note_type config) ≡ some band
      → compute_score checks note_type config ≡ ok (score_of checks note_type config band)
      → Outcome checks note_type config

pub compute_score-Outcome :
    (checks : Checks) (note_type : NoteType) (config : TenantConfig)
    → Outcome checks note_type config
unfolding compute_score
compute_score-Outcome checks note_type config =
    elim (validate_checks-cases checks note_type config) [
      | inr (ps, e) ↦ rejected ps e (rw e)
      | inl e ↦ elim (Bool-cases (denominator_of note_type config == 0)) [
        | inl z ↦
            nothing_applies ((validate_checks_iff checks note_type config).0 e)
              (==→eq (denominator_of note_type config) 0 z) (rw (e, z))
        | inr nz ↦ elim (Option-cases (band_for config (total_of checks note_type config))) [
          | inl eb ↦ unbanded (ground arith) eb (
              rw (
                e,
                nz,
                marks_for_lem checks config (applicable_components note_type config),
                sum_of-marks checks config (applicable_components note_type config),
                eb,
              ))
          | inr (b, eb) ↦
              let answered : AnswersExactly checks note_type config =
                (validate_checks_iff checks note_type config).0 e in
              let positive : 0 < denominator_of note_type config = ground arith in
              scored b answered positive eb
                (compute_score_lem checks note_type config b answered positive eb)
        ]
      ]
    ]

from_outcome :
    (checks : Checks) (note_type : NoteType) (config : TenantConfig) (s : NoteScore)
    → Outcome checks note_type config
    → compute_score checks note_type config ≡ ok s
    → IsScored checks note_type config s
from_outcome checks note_type config s (rejected ps e c) h = absurd (ground arith)
from_outcome checks note_type config s (nothing_applies a z c) h = absurd (ground arith)
from_outcome checks note_type config s (unbanded d z c) h = absurd (ground arith)
from_outcome checks note_type config s (scored b answered positive banded c) h =
    let e : score_of checks note_type config b ≡ s = ok-injective (sym c ∙ h) in
    rw (← e) (record { answered = answered; positive = positive; banded = banded; computed = refl })

pub compute_score-IsScored :
    (checks : Checks) (note_type : NoteType) (config : TenantConfig) (s : NoteScore)
    → compute_score checks note_type config ≡ ok s
    → IsScored checks note_type config s
compute_score-IsScored checks note_type config s h =
    from_outcome checks note_type config s (compute_score-Outcome checks note_type config) h
