-- ===== src/Scoring/Totals/Bounds.antt =====
-- How the total stands to the marks
-- (src/dodeal_ai/units/structured_intelligence/scoring.py, `compute_score`).
use do_deal_ai.Prelude.{ok, ℕ, ◌+◌, ◌*◌, ◌/◌, ◌≤◌, ◌<◌, ◌≡◌, refl, ap, arith, sum_of_mono}
use native.Mathlib.Nat.{div-mul-le_self, lt-div-mul-add, div-lt_iff_lt-mul}
use do_deal_ai.Schemas.{NoteType, NoteScore, Checks, band_position}
use do_deal_ai.TenantConfig.{TenantConfig}
use do_deal_ai.TenantConfig.Bands.{HasBands, LiesIn, band_for_lem, band_for_mono}
use do_deal_ai.TenantConfig.Marks.{div_mono}
use do_deal_ai.Scoring.{applicable_components, percent_of, compute_score}
use do_deal_ai.Scoring.Answers.{AnswersExactly}
use do_deal_ai.Scoring.Marks.{mark_value, mark_value-le, mark_value_mono, Improves}
use do_deal_ai.Scoring.Totals.{
  denominator_of, raw_of, total_of, score_of, compute_score_lem, IsScored, compute_score-IsScored,
}

-- `total` is `raw` hundredths of `denominator`, rounded half up.
abbrev pub IsRounded : ℕ → ℕ → ℕ → Type 0
IsRounded raw denominator total =
    (total * denominator ≤ raw * 100 + denominator / 2)
    × (raw * 100 + denominator / 2 < total * denominator + denominator)

pub percent_of-IsRounded : (raw d : ℕ) → 0 < d → IsRounded raw d (percent_of raw d)
unfolding percent_of
percent_of-IsRounded raw d positive =
    (div-mul-le_self (raw * 100 + d / 2) d, lt-div-mul-add {a = raw * 100 + d / 2} positive)

pub percent_of-le : (raw d : ℕ) → 0 < d → raw ≤ d → percent_of raw d ≤ 100
unfolding percent_of
percent_of-le raw d positive h =
    let below : (raw * 100 + d / 2) / d < 101 = (div-lt_iff_lt-mul positive).1 (omega arith) in
    omega arith

percent_of_mono : (a b d : ℕ) → 0 < d → a ≤ b → percent_of a d ≤ percent_of b d
unfolding percent_of
percent_of_mono a b d positive h =
    div_mono d (a * 100 + d / 2) (b * 100 + d / 2) positive (omega arith)

raw_of-le :
    (checks : Checks) (t : NoteType) (config : TenantConfig)
    → raw_of checks t config ≤ denominator_of t config
raw_of-le checks t config =
    sum_of_mono (mark_value checks config) config.weights (applicable_components t config)
      (mark_value-le checks config)

-- Under rising bands, answers to exactly the asked checks are scored whenever some weight applies: the
-- total is the earned marks as a whole percent of the applicable weights, rounded half up and at
-- most 100, the denominator is the sum of those weights, and the band is the one in whose interval
-- the total lies.
pub compute_score_total :
    (checks : Checks) (note_type : NoteType) (config : TenantConfig)
    (h : HasBands config.band_boundaries)
    → AnswersExactly checks note_type config
    → 0 < denominator_of note_type config
    → (s : NoteScore) × (compute_score checks note_type config ≡ ok s)
      × (s.total ≤ 100)
      × (s.denominator ≡ denominator_of note_type config)
      × IsRounded (raw_of checks note_type config) s.denominator s.total
      × LiesIn h.poor_upper h.fair_upper h.good_upper s.total s.band
compute_score_total checks note_type config h answered positive =
    let (band, banded, lies) = band_for_lem config h (total_of checks note_type config) in
    (
      score_of checks note_type config band,
      compute_score_lem checks note_type config band answered positive banded,
      percent_of-le (raw_of checks note_type config) (denominator_of note_type config) positive
          (raw_of-le checks note_type config),
      refl,
      percent_of-IsRounded (raw_of checks note_type config) (denominator_of note_type config)
          positive,
      lies,
    )

-- For one note type under one rubric with rising bands, turning answers from false to true never
-- lowers the total and never lowers the band.
pub compute_score_mono :
    (before after : Checks) (note_type : NoteType) (config : TenantConfig) (s s' : NoteScore)
    → HasBands config.band_boundaries
    → Improves before after
    → compute_score before note_type config ≡ ok s
    → compute_score after note_type config ≡ ok s'
    → (s.total ≤ s'.total) × (band_position s.band ≤ band_position s'.band)
compute_score_mono before after note_type config s s' h better e e' =
    let a : IsScored before note_type config s =
      compute_score-IsScored before note_type config s e in
    let b : IsScored after note_type config s' =
      compute_score-IsScored after note_type config s' e' in
    let raised : total_of before note_type config ≤ total_of after note_type config =
      percent_of_mono (raw_of before note_type config) (raw_of after note_type config)
        (denominator_of note_type config) a.positive
        (sum_of_mono (mark_value before config) (mark_value after config)
          (applicable_components note_type config)
          (λ c. mark_value_mono before after config c better)) in
    (
      omega (
        arith,
        ap (λ (r : NoteScore). r.total) a.computed,
        ap (λ (r : NoteScore). r.total) b.computed,
        raised,
      ),
      band_for_mono config (total_of before note_type config) (total_of after note_type config)
          s.band s'.band h raised a.banded b.banded,
    )
