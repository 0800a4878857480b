-- ===== src/Scoring/Totals/Rows.antt =====
-- The breakdown of a score
-- (src/dodeal_ai/units/structured_intelligence/scoring.py, `compute_score`).
use do_deal_ai.Prelude.{
  ok, ℕ, Bool, not, ◌&&◌, ◌≡◌, refl, ap, ◌∙◌, none, some, List, [], ◌∷◌, arith, map, if◌then◌else◌,
  any, keep_if,
}
use do_deal_ai.Schemas.{
  NoteType, ComponentName, NoteScore, ScoreComponent, Checks, is_component, all_components,
}
use do_deal_ai.TenantConfig.{TenantConfig}
use do_deal_ai.Scoring.{applies, applicable_components, mark_in, score_rows, compute_score}
use do_deal_ai.Scoring.Marks.{mark_value}
use do_deal_ai.Scoring.Totals.{IsScored, compute_score-IsScored}
use do_deal_ai.Scoring.Totals.Extremes.{component_eq, every_component}

module _ (p : ComponentName → Bool) (v : ComponentName → ℕ) where
  mark_in-keep_if :
      (c : ComponentName) (xs : List ComponentName)
      → mark_in c (map (λ x. (x, v x)) (keep_if p xs))
        ≡ (if p c && any (is_component c) xs then some (v c) else none)
  unfolding mark_in
  mark_in-keep_if c [] = ground arith
  mark_in-keep_if c (x ∷ xs) = ground (arith, component_eq c x, mark_in-keep_if c xs)

module _ (p : ComponentName → Bool) where
  any-keep_if :
      (c : ComponentName) (xs : List ComponentName)
      → any (is_component c) (keep_if p xs) ≡ (p c && any (is_component c) xs)
  any-keep_if c [] = ground arith
  any-keep_if c (x ∷ xs) = ground (arith, component_eq c x, any-keep_if c xs)

-- The row of a component that counts carries its mark; that of one that does not has no mark and is
-- marked as suppressed.
abbrev pub row_of : Checks → NoteType → TenantConfig → ComponentName → ScoreComponent
row_of checks note_type config c = record {
  name = c;
  mark = if applies note_type config c then some (mark_value checks config c) else none;
  weight = config.weights c;
  suppressed = not (applies note_type config c);
}

module _ (checks : Checks) (note_type : NoteType) (config : TenantConfig) where
  mark_in-applicable :
      (c : ComponentName)
      → mark_in c
          (map (λ x. (x, mark_value checks config x)) (applicable_components note_type config))
        ≡ (if applies note_type config c then some (mark_value checks config c) else none)
  unfolding applicable_components
  mark_in-applicable c =
      mark_in-keep_if (applies note_type config) (mark_value checks config) c all_components
      ∙ rw (every_component c) (ground arith)

  any-applicable :
      (c : ComponentName)
      → any (is_component c) (applicable_components note_type config) ≡ applies note_type config c
  unfolding applicable_components
  any-applicable c =
      any-keep_if (applies note_type config) c all_components
      ∙ rw (every_component c) (ground arith)

  score_rows_lem :
      (cs : List ComponentName)
      → score_rows config
          (applicable_components note_type config)
          (map (λ x. (x, mark_value checks config x)) (applicable_components note_type config))
          cs
        ≡ map (row_of checks note_type config) cs
  unfolding score_rows
  score_rows_lem [] = refl
  score_rows_lem (c ∷ cs) = rw (mark_in-applicable c, any-applicable c, score_rows_lem cs)

-- A score lists all five components in their declared order, each with its weight; a component that
-- counts for the type has its mark, and one that does not has none and is marked suppressed.
components-compute_score :
    (checks : Checks) (note_type : NoteType) (config : TenantConfig) (s : NoteScore)
    → compute_score checks note_type config ≡ ok s
    → s.components ≡ map (row_of checks note_type config) all_components
components-compute_score checks note_type config s e =
    let a : IsScored checks note_type config s =
      compute_score-IsScored checks note_type config s e in
    ap (λ (r : NoteScore). r.components) a.computed
    ∙ score_rows_lem checks note_type config all_components
