-- ===== src/Measures/Examples.antt =====
-- One salesperson's rows (src/dodeal_ai/units/structured_intelligence/measures.py).
use do_deal_ai.Prelude.{ℕ, ◌+◌, ◌≡◌, refl, Bool, true, false, some, List, [], ◌∷◌, arith, length}
use do_deal_ai.Schemas.{NoteType, note_type, Band, fair, good, excellent, EnforcementVerdict}
use do_deal_ai.TenantConfig.{band_for}
use do_deal_ai.TenantConfig.Default.{default_config}
use do_deal_ai.TenantConfig.Bands.{HasBands}
use do_deal_ai.Measures.{
  JudgementRow, BandMeasure, flagged_share, improved_share, average_band, totals_of, rep_notes,
}
use do_deal_ai.Measures.Shares.{IsShare, shares_lem}
use do_deal_ai.Measures.Average.{Averaged, scored_rows, average_band_lem}

abbrev viewing_row : ℕ → ℕ → Band → Bool → JudgementRow
viewing_row note total band asked = record {
  note_id = note;
  row_type = some (note_type NoteType.viewing);
  band = some band;
  total = some total;
  prompt_sent = asked;
  enforcement_verdict = elim asked [
    | true ↦ EnforcementVerdict.flag
    | false ↦ EnforcementVerdict.allow
  ];
  rubric_version = "r";
  config_version = "c";
}

-- A note that was asked about and came back better, and another.
abbrev rows : List JudgementRow
rows =
    viewing_row 1 45 fair true ∷ viewing_row 1 80 good false ∷ viewing_row 2 90 excellent false ∷ []

shares_lem_example :
    IsShare default_config (flagged_share rows default_config)
    × IsShare default_config (improved_share rows default_config)
shares_lem_example = shares_lem rows default_config

abbrev bands : HasBands default_config.band_boundaries
bands = record {
  poor_upper = 39;
  fair_upper = 69;
  good_upper = 84;
  listed = refl;
  poor_below = omega arith;
  fair_below = omega arith;
  good_below = omega arith;
}

forty_fair : band_for default_config 40 ≡ some fair
unfolding band_for
forty_fair = refl

hundred_excellent : band_for default_config 100 ≡ some excellent
unfolding band_for
hundred_excellent = refl

average_band_lem_example :
    (m : BandMeasure) × (average_band rows default_config ≡ some m)
    × (m.notes + m.excluded ≡ length (scored_rows rows))
    × Averaged default_config fair excellent m
unfolding totals_of rep_notes
average_band_lem_example =
    average_band_lem rows default_config 40 100 fair excellent bands
      (omega arith, omega arith, (omega arith, omega arith, (omega arith, omega arith, tt)))
      forty_fair hundred_excellent
