-- ===== src/Measures/Shares.antt =====
-- The two proportions, and the rows that no measure sees
-- (src/dodeal_ai/units/structured_intelligence/measures.py).
use do_deal_ai.Prelude.{
  ℕ, ◌≤◌, ◌<◌, ◌≡◌, false, Option, none, some, List, [], ◌∷◌, ◌++◌, arith, length, keep_if-append,
  count_if, count_if-le-length, ◌==◌, ltb, Bool-cases, inl, inr,
}
use do_deal_ai.Schemas.{NoteType, note_type}
use do_deal_ai.TenantConfig.{TenantConfig}
use do_deal_ai.Scoring.{percent_of}
use do_deal_ai.Scoring.Totals.Bounds.{IsRounded, percent_of-IsRounded, percent_of-le}
use do_deal_ai.Measures.{
  JudgementRow, is_rep_note, rep_notes, MeasureName, MeasureSuppressed, nothing_to_measure,
  below_evidence_floor, ShareMeasure, suppression, percent_share, share, flagged_share,
  count_improved, improved_share, is_flagged, average_band, measure_rep,
}

-- A reason or a figure: nothing to measure at a denominator of 0, too little evidence below the
-- tenant's floor, and else the counted part as a whole percent, rounded half up.
abbrev pub Figure : TenantConfig → (counted of : ℕ) → Option MeasureSuppressed → Option ℕ → Type 0
Figure config counted of (some nothing_to_measure) none = of ≡ 0
Figure config counted of (some below_evidence_floor) none =
    (0 < of) × (of < config.measure_evidence_floor)
Figure config counted of none (some p) =
    (0 < of) × (config.measure_evidence_floor ≤ of) × (p ≤ 100) × IsRounded counted of p
Figure config counted of _ _ = ⊥

abbrev pub IsShare : TenantConfig → ShareMeasure → Type 0
IsShare config m = (m.counted ≤ m.of) × Figure config m.counted m.of m.suppressed m.percent

share-IsShare :
    (name : MeasureName) (counted of : ℕ) (config : TenantConfig)
    → counted ≤ of
    → IsShare config (share name counted of config)
unfolding share suppression percent_share
share-IsShare name counted of config h = elim (Bool-cases (of == 0)) [
  | inl z ↦ (h, rw z (ground arith))
  | inr nz ↦ elim (Bool-cases (ltb of config.measure_evidence_floor)) [
    | inl low ↦ (h, rw (nz, low) (ground arith, ground arith))
    | inr enough ↦ (
      h,
      rw (nz, enough)
          (
            ground arith,
            ground arith,
            (unfold percent_of in percent_of-le counted of (ground arith) h),
            (unfold percent_of in percent_of-IsRounded counted of (ground arith)),
          ),
    )
  ]
]

count_improved-le :
    (rows : List JudgementRow)
    → count_improved rows ≤ count_if (λ (row : JudgementRow). row.prompt_sent) rows
unfolding count_improved
count_improved-le [] = omega arith
count_improved-le (row ∷ rest) = ground (arith, count_improved-le rest)

-- Both shares count a part of their denominator, and each is suppressed with its reason (nothing to
-- measure at 0, too little evidence below the floor) or is that part as a whole percent, rounded half
-- up and at most 100; never both and never neither.
pub shares_lem :
    (rows : List JudgementRow) (config : TenantConfig)
    → IsShare config (flagged_share rows config) × IsShare config (improved_share rows config)
unfolding flagged_share improved_share
shares_lem rows config =
    let notes : List JudgementRow = rep_notes rows in
    (
      share-IsShare MeasureName.flagged_share_name (count_if is_flagged notes) (length notes) config
          (count_if-le-length is_flagged notes),
      share-IsShare MeasureName.improved_share_name (count_improved notes)
          (count_if (λ (row : JudgementRow). row.prompt_sent) notes) config
          (count_improved-le notes),
    )

rep_notes-system :
    (before after : List JudgementRow) (event : JudgementRow)
    → is_rep_note event ≡ false
    → rep_notes (before ++ event ∷ after) ≡ rep_notes (before ++ after)
unfolding rep_notes
rep_notes-system before after event h =
    rw (
      keep_if-append is_rep_note before (event ∷ after),
      keep_if-append is_rep_note before after,
      h,
    )

average_band-rep_notes :
    (rows rows' : List JudgementRow) (config : TenantConfig)
    → rep_notes rows ≡ rep_notes rows'
    → average_band rows config ≡ average_band rows' config
unfolding average_band
average_band-rep_notes rows rows' config same = cc same

shares-rep_notes :
    (rows rows' : List JudgementRow) (config : TenantConfig)
    → rep_notes rows ≡ rep_notes rows'
    → (flagged_share rows config ≡ flagged_share rows' config)
      × (improved_share rows config ≡ improved_share rows' config)
unfolding flagged_share improved_share
shares-rep_notes rows rows' config same = (cc same, cc same)

-- A system event is in no measure: wherever one stands among the rows, all three measures are the
-- ones without it.
measure_rep-system_event :
    (before after : List JudgementRow) (event : JudgementRow) (config : TenantConfig)
    → event.row_type ≡ some (note_type NoteType.system_event)
    → measure_rep (before ++ event ∷ after) config ≡ measure_rep (before ++ after) config
unfolding measure_rep
measure_rep-system_event before after event config h =
    let left_out : is_rep_note event ≡ false = rw h in
    let same = rep_notes-system before after event left_out in
    let rows : List JudgementRow = before ++ event ∷ after in
    let rows' : List JudgementRow = before ++ after in
    let shares = shares-rep_notes rows rows' config same in
    rw (average_band-rep_notes rows rows' config same, shares.0, shares.1)
