-- ===== src/Measures.antt =====
-- The three measures of one salesperson over a window of judgement rows
-- (src/dodeal_ai/units/structured_intelligence/measures.py, and the rows of judgement_rows.py).
--
-- A row has the fields that a measure reads. The author and the window that a result carries along
-- are left out.
pub mod Shares
pub mod Average
mod Examples
use do_deal_ai.Prelude.{
  ℕ, zero, suc, ◌+◌, ◌*◌, ◌/◌, ◌-◌, Bool, true, false, not, ◌&&◌, ◌||◌, Option, none, some, List,
  [], ◌∷◌, String, ltb, ◌==◌, if◌then◌else◌, length, any, keep_if, count_if, sum_of, is_some,
}
use text.Mathlib.Text.{◌==◌ as str_eq}
use do_deal_ai.Schemas.{
  NoteType, ClassifierOutput, note_type, unclassifiable, Band, band_position, EnforcementVerdict,
}
use do_deal_ai.TenantConfig.{TenantConfig, band_for}

pub record JudgementRow : Type 0 where
  pub note_id : ℕ
  pub row_type : Option ClassifierOutput
  pub band : Option Band
  pub total : Option ℕ
  pub prompt_sent : Bool
  pub enforcement_verdict : EnforcementVerdict
  pub rubric_version : String
  pub config_version : String

pub data MeasureName : Type 0 where
  average_band_name flagged_share_name improved_share_name : MeasureName

pub data MeasureSuppressed : Type 0 where
  nothing_to_measure below_evidence_floor : MeasureSuppressed

pub record BandMeasure : Type 0 where
  pub band : Option Band
  pub suppressed : Option MeasureSuppressed
  pub notes : ℕ
  pub excluded : ℕ

pub record ShareMeasure : Type 0 where
  pub name : MeasureName
  pub percent : Option ℕ
  pub suppressed : Option MeasureSuppressed
  pub counted : ℕ
  pub of : ℕ

pub record RepMeasures : Type 0 where
  pub average_band : BandMeasure
  pub flagged_share : ShareMeasure
  pub improved_share : ShareMeasure

-- `row.note_type != NoteType.SYSTEM_EVENT`.
abbrev pub is_rep_note : JudgementRow → Bool
is_rep_note row = elim row.row_type [ some (note_type NoteType.system_event) ↦ false | _ ↦ true ]

unfoldable pub rep_notes : List JudgementRow → List JudgementRow
rep_notes rows = keep_if is_rep_note rows

unfoldable pub suppression : ℕ → TenantConfig → Option MeasureSuppressed
suppression denominator config =
    if denominator == 0
    then some nothing_to_measure
    else if ltb denominator config.measure_evidence_floor
    then some below_evidence_floor
    else none

unfoldable pub percent_share : ℕ → ℕ → ℕ
percent_share counted of = (counted * 100 + of / 2) / of

last_row : List JudgementRow → Option JudgementRow
last_row [] = none
last_row (row ∷ []) = some row
last_row (row ∷ next ∷ rest) = last_row (next ∷ rest)

abbrev pub same_stamp : JudgementRow → JudgementRow → Bool
same_stamp latest row =
    str_eq row.rubric_version latest.rubric_version
    && str_eq row.config_version latest.config_version

-- `[row.total for row in comparable if row.total is not None]`.
unfoldable pub totals_of : List JudgementRow → List ℕ
totals_of [] = []
totals_of (row ∷ rest) =
    let later = totals_of rest in elim row.total [ none ↦ later | some total ↦ total ∷ later ]

-- The mean of the totals, rounded half up.
unfoldable pub mean_of : List ℕ → ℕ
mean_of totals = (sum_of (λ total. total) totals * 2 + length totals) / (2 * length totals)

abbrev pub no_band : MeasureSuppressed → ℕ → ℕ → BandMeasure
no_band reason notes excluded = record {
  band = none;
  suppressed = some reason;
  notes = notes;
  excluded = excluded;
}

-- The measure over the scored rows, of which `latest` is the last; `none` is the IndexError of an
-- empty boundary table.
unfoldable pub average_from : TenantConfig → List JudgementRow → JudgementRow → Option BandMeasure
unfolding suppression totals_of mean_of
average_from config scored latest =
    let comparable = keep_if (same_stamp latest) scored in
    let excluded = length scored - length comparable in
    elim (suppression (length comparable) config) [
      | some reason ↦ some (no_band reason (length comparable) excluded)
      | none ↦ elim (band_for config (mean_of (totals_of comparable))) [
        | none ↦ none
        | some band ↦ some (record {
          band = some band;
          suppressed = none;
          notes = length comparable;
          excluded = excluded;
        })
      ]
    ]

unfoldable pub average_band : List JudgementRow → TenantConfig → Option BandMeasure
unfolding rep_notes last_row average_from
average_band rows config =
    let scored = keep_if (λ (row : JudgementRow). is_some row.total) (rep_notes rows) in
    elim (last_row scored) [
      | none ↦ some (no_band nothing_to_measure 0 0)
      | some latest ↦ average_from config scored latest
    ]

share : MeasureName → ℕ → ℕ → TenantConfig → ShareMeasure
unfolding suppression percent_share
share name counted of config =
    let suppressed = suppression of config in
    record {
      name = name;
      percent = if is_some suppressed then none else some (percent_share counted of);
      suppressed = suppressed;
      counted = counted;
      of = of;
    }

-- `row.enforcement_verdict is EnforcementVerdict.FLAG`.
abbrev pub is_flagged : JudgementRow → Bool
is_flagged row = elim row.enforcement_verdict [ EnforcementVerdict.flag ↦ true | _ ↦ false ]

unfoldable pub flagged_share : List JudgementRow → TenantConfig → ShareMeasure
unfolding rep_notes share
flagged_share rows config =
    let notes = rep_notes rows in
    share flagged_share_name (count_if is_flagged notes) (length notes) config

-- `[later.band for later in ... if later.note_id == row.note_id and later.band is not None]`.
unfoldable pub later_bands : ℕ → List JudgementRow → List Band
later_bands note_id [] = []
later_bands note_id (row ∷ rest) =
    let later = later_bands note_id rest in
    elim row.band [
      | none ↦ later
      | some band ↦ if row.note_id == note_id then band ∷ later else later
    ]

-- `_improved`.
unfoldable pub improved : JudgementRow → List Band → Bool
improved asked [] = false
improved asked (band ∷ later) = elim asked.band [
  | none ↦ true
  | some before ↦ any (λ after. ltb (band_position before) (band_position after)) (band ∷ later)
]

-- Each row that asked, against what the same note reached after it.
unfoldable pub count_improved : List JudgementRow → ℕ
unfolding later_bands improved
count_improved [] = 0
count_improved (row ∷ rest) =
    let later = count_improved rest in
    if row.prompt_sent && improved row (later_bands row.note_id rest) then suc later else later

unfoldable pub improved_share : List JudgementRow → TenantConfig → ShareMeasure
unfolding rep_notes count_improved share
improved_share rows config =
    let notes = rep_notes rows in
    share improved_share_name (count_improved notes)
      (count_if (λ (row : JudgementRow). row.prompt_sent) notes) config

with_average : ShareMeasure → ShareMeasure → Option BandMeasure → Option RepMeasures
with_average flagged improved none = none
with_average flagged improved (some average) =
    some (record { average_band = average; flagged_share = flagged; improved_share = improved })

-- `measure_rep`; `none` is the IndexError of the average.
unfoldable pub measure_rep : List JudgementRow → TenantConfig → Option RepMeasures
unfolding with_average
measure_rep rows config =
    with_average (flagged_share rows config) (improved_share rows config) (average_band rows config)
