-- ===== src/Scoring/Examples.antt =====
-- A viewing note scored (src/dodeal_ai/units/structured_intelligence/scoring.py).
use do_deal_ai.Prelude.{
  err, ok, ℕ, ◌≤◌, ◌<◌, ◌≡◌, ◌↔◌, refl, Bool, true, false, none, some, arith, map,
}
use do_deal_ai.Schemas.{
  NoteType, Band, poor, good, excellent, band_position, NoteScore, Checks, all_components,
  wh_outcome, wh_action, cs_present, cs_own_terms, ns_action, ns_date, ns_closure, ds_figures,
  ds_subject, ds_timing, cl_readable, cl_substance,
}
use do_deal_ai.TenantConfig.{marks_by_true_count, band_for}
use do_deal_ai.TenantConfig.Default.{default_config, default_suppressed}
use do_deal_ai.TenantConfig.Bands.{HasBands, LiesIn}
use do_deal_ai.TenantConfig.File.{parse_unit_a_section}
use do_deal_ai.Scoring.{
  validate_checks, applicable_checks, applies, marks_for, percent_of, score_rows, compute_score,
  no_applicable_component,
}
use do_deal_ai.Scoring.Marks.{mark_value}
use do_deal_ai.Scoring.Answers.{AnswersExactly, validate_checks_iff}
use do_deal_ai.Scoring.Totals.{denominator_of, raw_of}
use do_deal_ai.Scoring.Totals.Bounds.{IsRounded, compute_score_total, compute_score_mono}
use do_deal_ai.Scoring.Totals.Rows.{row_of}
use do_deal_ai.Scoring.Totals.Gap.{gap_file, gap_config, no_contact_gap}

-- One answer to every check but those of the deal specifics, which are not asked.
abbrev all_answered : Bool → Checks
all_answered answer ds_figures = none
all_answered answer ds_subject = none
all_answered answer ds_timing = none
all_answered answer _ = some answer

-- Everything but the client's own words and the date.
abbrev pub partly_answered : Checks
partly_answered ds_figures = none
partly_answered ds_subject = none
partly_answered ds_timing = none
partly_answered cs_own_terms = some false
partly_answered ns_date = some false
partly_answered ns_closure = some false
partly_answered _ = some true

abbrev pub bands : HasBands default_config.band_boundaries
bands = record {
  poor_upper = 39;
  fair_upper = 69;
  good_upper = 84;
  listed = refl;
  poor_below = omega arith;
  fair_below = omega arith;
  good_below = omega arith;
}

partly-AnswersExactly : AnswersExactly partly_answered NoteType.viewing default_config
unfolding applicable_checks applies default_suppressed
partly-AnswersExactly wh_outcome = refl
partly-AnswersExactly wh_action = refl
partly-AnswersExactly cs_present = refl
partly-AnswersExactly cs_own_terms = refl
partly-AnswersExactly ns_action = refl
partly-AnswersExactly ns_date = refl
partly-AnswersExactly ns_closure = refl
partly-AnswersExactly ds_figures = refl
partly-AnswersExactly ds_subject = refl
partly-AnswersExactly ds_timing = refl
partly-AnswersExactly cl_readable = refl
partly-AnswersExactly cl_substance = refl

abbrev pub partly_scored : NoteScore
partly_scored = record {
  total = 73;
  band = good;
  denominator = 80;
  components = map (row_of partly_answered NoteType.viewing default_config) all_components;
}

abbrev uniformly_scored : Bool → ℕ → Band → NoteScore
uniformly_scored answer total band = record {
  total = total;
  band = band;
  denominator = 80;
  components = map (row_of (all_answered answer) NoteType.viewing default_config) all_components;
}

pub partly-computed :
    compute_score partly_answered NoteType.viewing default_config ≡ ok partly_scored
unfolding compute_score validate_checks applicable_checks applies default_suppressed marks_for
    marks_by_true_count band_for percent_of score_rows mark_value
partly-computed = refl

best-computed :
    compute_score (all_answered true) NoteType.viewing default_config
    ≡ ok (uniformly_scored true 100 excellent)
unfolding compute_score validate_checks applicable_checks applies default_suppressed marks_for
    marks_by_true_count band_for percent_of score_rows mark_value
best-computed = refl

worst-computed :
    compute_score (all_answered false) NoteType.viewing default_config
    ≡ ok (uniformly_scored false 0 poor)
unfolding compute_score validate_checks applicable_checks applies default_suppressed marks_for
    marks_by_true_count band_for percent_of score_rows mark_value
worst-computed = refl

validate_checks_iff_example :
    (validate_checks partly_answered NoteType.viewing default_config ≡ ok tt)
    ↔ AnswersExactly partly_answered NoteType.viewing default_config
validate_checks_iff_example = validate_checks_iff partly_answered NoteType.viewing default_config

positive-denominator : 0 < denominator_of NoteType.viewing default_config
unfolding applicable_checks applies default_suppressed
positive-denominator = omega arith

compute_score_mono_example : (73 ≤ 100) × (band_position good ≤ band_position excellent)
compute_score_mono_example =
    compute_score_mono partly_answered (all_answered true) NoteType.viewing default_config
      partly_scored (uniformly_scored true 100 excellent) bands (λ check h. ground arith)
      partly-computed best-computed

compute_score_total_example :
    (s : NoteScore) × (compute_score partly_answered NoteType.viewing default_config ≡ ok s)
    × (s.total ≤ 100)
    × (s.denominator ≡ denominator_of NoteType.viewing default_config)
    × IsRounded (raw_of partly_answered NoteType.viewing default_config) s.denominator s.total
    × LiesIn 39 69 84 s.total s.band
compute_score_total_example =
    compute_score_total partly_answered NoteType.viewing default_config bands partly-AnswersExactly
      positive-denominator

abbrev no_contact_answers : Checks
no_contact_answers ns_action = some true
no_contact_answers ns_date = some true
no_contact_answers ns_closure = some false
no_contact_answers cl_readable = some true
no_contact_answers cl_substance = some false
no_contact_answers _ = none

no_contact-AnswersExactly :
    AnswersExactly no_contact_answers NoteType.no_contact (gap_config 60 30 10)
unfolding applicable_checks applies default_suppressed
no_contact-AnswersExactly wh_outcome = refl
no_contact-AnswersExactly wh_action = refl
no_contact-AnswersExactly cs_present = refl
no_contact-AnswersExactly cs_own_terms = refl
no_contact-AnswersExactly ns_action = refl
no_contact-AnswersExactly ns_date = refl
no_contact-AnswersExactly ns_closure = refl
no_contact-AnswersExactly ds_figures = refl
no_contact-AnswersExactly ds_subject = refl
no_contact-AnswersExactly ds_timing = refl
no_contact-AnswersExactly cl_readable = refl
no_contact-AnswersExactly cl_substance = refl

no_contact_gap_example :
    (parse_unit_a_section (gap_file 60 30 10) ≡ ok (gap_config 60 30 10))
    × (compute_score no_contact_answers NoteType.no_contact (gap_config 60 30 10)
        ≡ err no_applicable_component)
no_contact_gap_example =
    no_contact_gap 60 30 10 no_contact_answers (omega arith) (omega arith) no_contact-AnswersExactly
