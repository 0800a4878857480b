-- ===== src/Scoring/Totals/Gap.antt =====
-- A rubric that is accepted and cannot score a no-contact note
-- (src/dodeal_ai/units/structured_intelligence/config.py `_check`, scoring.py `compute_score`).
use do_deal_ai.Prelude.{ok, err, ℕ, ◌+◌, ◌<◌, ◌≡◌, refl, List, none, some, arith}
use do_deal_ai.Prelude.Int.{pos}
use do_deal_ai.Schemas.{NoteType, ComponentName, Checks, CheckName}
use do_deal_ai.TenantConfig.{TenantConfig}
use do_deal_ai.TenantConfig.Default.{default_config, default_suppressed}
use do_deal_ai.TenantConfig.File.{TenantConfigFile, parse_unit_a_section}
use do_deal_ai.Scoring.{
  output_rejected, Fault, validate_checks, no_applicable_component, applies, applicable_components,
  compute_score,
}
use do_deal_ai.Scoring.Answers.{validate_checks_iff, AnswersExactly}
use do_deal_ai.Scoring.Totals.{
  denominator_of, Outcome, compute_score-Outcome, rejected, nothing_applies, unbanded, scored,
}

-- Weight on what happened, what the client said and the deal specifics, and none on the rest.
abbrev gap_weights : ℕ → ℕ → ℕ → ComponentName → ℕ
gap_weights happened said deal ComponentName.what_happened = happened
gap_weights happened said deal ComponentName.client_said = said
gap_weights happened said deal ComponentName.next_step_date = 0
gap_weights happened said deal ComponentName.deal_specifics = deal
gap_weights happened said deal ComponentName.clarity = 0

abbrev pub gap_file : ℕ → ℕ → ℕ → TenantConfigFile
gap_file happened said deal = record {
  version = "gap-1";
  weights_set = some (λ c. some (pos (gap_weights happened said deal c)));
  boundaries_set = none;
  short_note_codes_set = none;
  short_note_phrases_set = none;
  short_note_fillers_set = none;
  accept_threshold_set = none;
  flag_threshold_set = none;
  min_note_chars_set = none;
  min_note_tokens_set = none;
  max_note_chars_set = none;
  clarification_cap_set = none;
  rate_limit_per_hour_set = none;
  rate_limit_per_day_set = none;
  rate_limit_window_seconds_set = none;
  attempt_ttl_seconds_set = none;
  idempotency_ttl_seconds_set = none;
  measure_evidence_floor_set = none;
  rolling_window_days_set = none;
  enforcement_mode_set = none;
}

abbrev pub gap_config : ℕ → ℕ → ℕ → TenantConfig
gap_config happened said deal = record default_config {
  weights = gap_weights happened said deal;
  config_version = "gap-1";
}

gap_accepted :
    (happened said deal : ℕ)
    → happened + said + deal ≡ 100
    → 0 < happened + said
    → parse_unit_a_section (gap_file happened said deal) ≡ ok (gap_config happened said deal)
unfolding parse_unit_a_section
gap_accepted happened said deal h k = ground arith

rejected_answers :
    (checks : Checks) (note_type : NoteType) (config : TenantConfig) (ps : List (CheckName × Fault))
    → validate_checks checks note_type config ≡ err (output_rejected ps)
    → AnswersExactly checks note_type config
    → ⊥
rejected_answers checks note_type config ps e answered =
    cc (e, (validate_checks_iff checks note_type config).1 answered)

nothing_to_score :
    (checks : Checks) (note_type : NoteType) (config : TenantConfig)
    → denominator_of note_type config ≡ 0
    → AnswersExactly checks note_type config
    → compute_score checks note_type config ≡ err no_applicable_component
nothing_to_score checks note_type config z answered =
    go (compute_score-Outcome checks note_type config)
  where
    go :
        Outcome checks note_type config
        → compute_score checks note_type config ≡ err no_applicable_component
    go (rejected ps e c) = absurd (rejected_answers checks note_type config ps e answered)
    go (nothing_applies a d c) = c
    go (unbanded d b c) = absurd (omega arith)
    go (scored b a d l c) = absurd (omega arith)

no_contact_denominator :
    (happened said deal : ℕ)
    → denominator_of NoteType.no_contact (gap_config happened said deal) ≡ 0
unfolding applicable_components applies default_suppressed
no_contact_denominator happened said deal = refl

-- A tenant file that sets nothing but its version and its weights, and puts the weight on what
-- happened, what the client said and the deal specifics, with some on the first two, is accepted,
-- whatever the three shares of the 100 are; and under it every no-contact note whose answers are the
-- asked ones ends in the ValueError of a rubric with nothing to score.
pub no_contact_gap :
    (happened said deal : ℕ) (checks : Checks)
    → happened + said + deal ≡ 100
    → 0 < happened + said
    → AnswersExactly checks NoteType.no_contact (gap_config happened said deal)
    → (parse_unit_a_section (gap_file happened said deal) ≡ ok (gap_config happened said deal))
      × (compute_score checks NoteType.no_contact (gap_config happened said deal)
          ≡ err no_applicable_component)
no_contact_gap happened said deal checks h k answered = (
  gap_accepted happened said deal h k,
  nothing_to_score checks NoteType.no_contact (gap_config happened said deal)
      (no_contact_denominator happened said deal) answered,
)
