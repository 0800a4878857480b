-- ===== src/Measures/Average.antt =====
-- The average band (src/dodeal_ai/units/structured_intelligence/measures.py, `average_band`).
use do_deal_ai.Prelude.{
  ℕ, ◌+◌, ◌*◌, ◌/◌, ◌-◌, ◌≤◌, ◌<◌, ◌≡◌, refl, Bool, Option, none, some, List, [], ◌∷◌, arith,
  length, keep_if, sum_of, is_some, Option-cases, inl, inr,
}
use native.Mathlib.Nat.{div-lt_iff_lt-mul, le-div_iff_mul-le}
use do_deal_ai.Schemas.{Band, band_position}
use do_deal_ai.TenantConfig.{TenantConfig, band_for}
use do_deal_ai.TenantConfig.Bands.{HasBands, band_for_lem, band_for_mono}
use do_deal_ai.Measures.{
  JudgementRow, rep_notes, BandMeasure, MeasureSuppressed, nothing_to_measure, below_evidence_floor,
  suppression, last_row, same_stamp, totals_of, mean_of, no_band, average_from, average_band,
}

-- Every total is between the two.
abbrev pub Between : ℕ → ℕ → List ℕ → Type 0
Between low high [] = Unit
Between low high (total ∷ rest) = (low ≤ total) × (total ≤ high) × Between low high rest

sum-Between :
    (low high : ℕ) (ts : List ℕ)
    → Between low high ts
    → (low * length ts ≤ sum_of (λ t. t) ts) × (sum_of (λ t. t) ts ≤ high * length ts)
sum-Between low high [] h = (omega arith, omega arith)
sum-Between low high (t ∷ ts) (a, b, rest) =
    let (lower, upper) = sum-Between low high ts rest in (grind arith, grind arith)

mean_of-Between :
    (low high : ℕ) (ts : List ℕ)
    → 0 < length ts
    → Between low high ts
    → (low ≤ mean_of ts) × (mean_of ts ≤ high)
unfolding mean_of
mean_of-Between low high ts positive h =
    let (lower, upper) = sum-Between low high ts h in
    let total : ℕ = sum_of (λ t. t) ts in
    let count : ℕ = length ts in
    let above : low * (2 * count) ≤ total * 2 + count = grind arith in
    let below : total * 2 + count < (high + 1) * (2 * count) = grind arith in
    let less : (total * 2 + count) / (2 * count) < high + 1 =
      (div-lt_iff_lt-mul (omega arith)).1 below in
    let more : low ≤ (total * 2 + count) / (2 * count) =
      (le-div_iff_mul-le (omega arith)).1 above in
    (more, omega (arith, less))

keep_if-Between :
    (low high : ℕ) (p : JudgementRow → Bool) (rows : List JudgementRow)
    → Between low high (totals_of rows)
    → Between low high (totals_of (keep_if p rows))
unfolding totals_of
keep_if-Between low high p [] h = tt
keep_if-Between low high p (row ∷ rest) h = elim (Option-cases row.total) [
  | inl e ↦ ground (arith, e, h, keep_if-Between low high p rest)
  | inr (t, e) ↦ ground (arith, e, h, keep_if-Between low high p rest)
]

-- The rows that have a total, as `average_band` keeps them.
abbrev pub scored_rows : List JudgementRow → List JudgementRow
scored_rows rows = keep_if (λ (row : JudgementRow). is_some row.total) (rep_notes rows)

length-totals_of :
    (p : JudgementRow → Bool) (rows : List JudgementRow)
    → let kept = keep_if p (keep_if (λ (row : JudgementRow). is_some row.total) rows) in
      length (totals_of kept) ≡ length kept
unfolding totals_of
length-totals_of p [] = refl
length-totals_of p (row ∷ rest) = ground (arith, length-totals_of p rest)

length-keep_if :
    (p : JudgementRow → Bool) (rows : List JudgementRow) → length (keep_if p rows) ≤ length rows
length-keep_if p [] = omega arith
length-keep_if p (row ∷ rest) = ground (arith, length-keep_if p rest)

suppression-none :
    (n : ℕ) (config : TenantConfig)
    → suppression n config ≡ none
    → (0 < n) × (config.measure_evidence_floor ≤ n)
unfolding suppression
suppression-none n config h = ground arith

-- A reason or a band: nothing to measure over no row, too little evidence over fewer than the floor,
-- and else a band that is not below one bound nor above the other.
abbrev pub Reading :
    TenantConfig → (worst best : Band) → ℕ → Option MeasureSuppressed → Option Band → Type 0
Reading config worst best notes (some nothing_to_measure) none = notes ≡ 0
Reading config worst best notes (some below_evidence_floor) none =
    (0 < notes) × (notes < config.measure_evidence_floor)
Reading config worst best notes none (some band) =
    (config.measure_evidence_floor ≤ notes)
    × (band_position worst ≤ band_position band)
    × (band_position band ≤ band_position best)
Reading config worst best notes _ _ = ⊥

abbrev pub Averaged : TenantConfig → (worst best : Band) → BandMeasure → Type 0
Averaged config worst best m = Reading config worst best m.notes m.suppressed m.band

no_last : (rows : List JudgementRow) → last_row rows ≡ none → 0 ≡ length rows
unfolding last_row
no_last [] h = refl
no_last (row ∷ []) h = absurd (ground arith)
no_last (row ∷ next ∷ rest) h = absurd (ground (arith, h, no_last (next ∷ rest)))

module _ (config : TenantConfig) (h : HasBands config.band_boundaries) (low high : ℕ)
    (worst best : Band) (is_worst : band_for config low ≡ some worst)
    (is_best : band_for config high ≡ some best) where
  banded :
      (ts : List ℕ) (notes excluded : ℕ)
      → length ts ≡ notes
      → suppression notes config ≡ none
      → Between low high ts
      → (b : Band) × (band_for config (mean_of ts) ≡ some b)
        × Reading config worst best notes none (some b)
  banded ts notes excluded same enough between =
      let (positive, floor) = suppression-none notes config enough in
      let (above, below) = mean_of-Between low high ts (omega (arith, same, positive)) between in
      let (b, e, lies) = band_for_lem config h (mean_of ts) in
      (
        b,
        e,
        (
          floor,
          band_for_mono config low (mean_of ts) worst b h above is_worst e,
          band_for_mono config (mean_of ts) high b best h below e is_best,
        ),
      )

  reason :
      (notes : ℕ) (why : MeasureSuppressed)
      → suppression notes config ≡ some why
      → Reading config worst best notes (some why) none
  unfolding suppression
  reason notes nothing_to_measure e = ground arith
  reason notes below_evidence_floor e = ground arith

  from_latest :
      (rows : List JudgementRow) (latest : JudgementRow)
      → Between low high (totals_of (scored_rows rows))
      → (m : BandMeasure) × (average_from config (scored_rows rows) latest ≡ some m)
        × (m.notes + m.excluded ≡ length (scored_rows rows))
        × Averaged config worst best m
  unfolding average_from
  from_latest rows latest between =
      let scored : List JudgementRow = scored_rows rows in
      let comparable : List JudgementRow = keep_if (same_stamp latest) scored in
      let n : ℕ = length comparable in
      let excluded : ℕ = length scored - n in
      let fewer : n ≤ length scored = length-keep_if (same_stamp latest) scored in
      elim (Option-cases (suppression n config)) [
        | inr (why, e) ↦ (
          no_band why n excluded,
          rw (average_from, e) refl,
          omega (arith, fewer),
          reason n why e,
        )
        | inl e ↦
            let (b, eb, reading) =
              banded (totals_of comparable) n excluded
                (length-totals_of (same_stamp latest) (rep_notes rows)) e
                (keep_if-Between low high (same_stamp latest) scored between) in
            (
              record { band = some b; suppressed = none; notes = n; excluded = excluded },
              rw (average_from, e, eb) refl,
              omega (arith, fewer),
              reading,
            )
      ]

-- The average is always there under rising bands, and accounts for every scored row as counted or
-- excluded. It is a reason (no row to count, or fewer than the floor) or a band, never both; and where
-- every total lies between two bounds, the band is not below the one of the lower bound nor above
-- the one of the upper.
pub average_band_lem :
    (rows : List JudgementRow) (config : TenantConfig) (low high : ℕ) (worst best : Band)
    → HasBands config.band_boundaries
    → Between low high (totals_of (scored_rows rows))
    → band_for config low ≡ some worst
    → band_for config high ≡ some best
    → (m : BandMeasure) × (average_band rows config ≡ some m)
      × (m.notes + m.excluded ≡ length (scored_rows rows))
      × Averaged config worst best m
unfolding average_band
average_band_lem rows config low high worst best h between is_worst is_best =
    elim (Option-cases (last_row (scored_rows rows))) [
      | inl e ↦ (
        no_band nothing_to_measure 0 0,
        rw (average_band, e) refl,
        no_last (scored_rows rows) e,
        refl,
      )
      | inr (latest, e) ↦
          let (m, made, counted, reading) =
            from_latest config h low high worst best is_worst is_best rows latest between in
          (m, rw (average_band, e) made, counted, reading)
    ]
