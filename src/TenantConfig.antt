-- ===== src/TenantConfig.antt =====
-- One tenant's rubric and limits, the default and a tenant's file over it
-- (src/dodeal_ai/units/structured_intelligence/config.py).
--
-- A mapping from a vocabulary is a function, a frozen set of its members a Boolean one. The numbers of
-- a validated file are not negative, since every field bound excludes that, except the weights and the
-- band boundaries, which have no field bound and are signed here. The short-note tables are kept as
-- they are written, and folded where they are read (Pipeline/Length). The business line field is left
-- out: no function reads it.
pub mod Default
pub mod File
pub mod Marks
pub mod Bands
mod Examples
use do_deal_ai.Prelude.{
  ℕ, zero, suc, ◌+◌, ◌*◌, ◌/◌, min, max, Bool, true, false, not, ◌&&◌, ◌||◌, Option, none, some,
  List, [], ◌∷◌, String, ltb, leb, ◌==◌, if◌then◌else◌, length, all, any, count_if, sum_of, ◌++◌,
}
use do_deal_ai.Schemas.{
  NoteType, ComponentName, CheckName, MissingComponent, Band, poor, fair, good, excellent,
  EnforcementMode, wh_outcome, wh_action, cs_present, cs_own_terms, ns_action, ns_date, ns_closure,
  ds_figures, ds_subject, ds_timing, cl_readable, cl_substance, all_components, all_checks,
  all_bands, is_component, is_check, is_band, band_position,
}

pub record TenantConfig : Type 0 where
  pub weights : ComponentName → ℕ
  pub band_boundaries : List (Band × ℕ)
  pub checks_by_component : ComponentName → List CheckName
  pub suppressed_components_by_type : NoteType → ComponentName → Bool
  pub allowed_missing_by_type : NoteType → Option (MissingComponent → Bool)
  pub short_note_codes : List String
  pub short_note_phrases : List String
  pub short_note_fillers : List String
  pub accept_threshold : ℕ
  pub flag_threshold : ℕ
  pub deal_specifics_applicable : Bool
  pub min_note_chars : ℕ
  pub min_note_tokens : ℕ
  pub max_note_chars : ℕ
  pub clarification_cap : ℕ
  pub rate_limit_per_hour : ℕ
  pub rate_limit_per_day : ℕ
  pub rate_limit_window_seconds : ℕ
  pub attempt_ttl_seconds : ℕ
  pub idempotency_ttl_seconds : ℕ
  pub measure_evidence_floor : ℕ
  pub rolling_window_days : ℕ
  pub enforcement_mode : EnforcementMode
  pub config_version : String

-- `_FULL_MARKS_AT.get(component, len(checks))`, at least 1.
unfoldable pub full_marks_at : ComponentName → List CheckName → ℕ
full_marks_at component checks =
    max 1 (if is_component component ComponentName.next_step_date then 2 else length checks)

-- An even split of the weight over the checks, rounded half up.
unfoldable pub split_mark : ℕ → ℕ → ℕ → ℕ
split_mark weight full true_count = (weight * min true_count full * 2 + full) / (2 * full)

-- The entries from `true_count` on, `more` of them after the first.
unfoldable pub mark_table : ℕ → ℕ → ℕ → ℕ → List ℕ
unfolding split_mark
mark_table weight full true_count zero = split_mark weight full true_count ∷ []
mark_table weight full true_count (suc more) =
    split_mark weight full true_count ∷ mark_table weight full (true_count + 1) more

-- `_derive_marks`, at one component.
unfoldable pub marks_by_true_count : TenantConfig → ComponentName → List ℕ
unfolding full_marks_at mark_table
marks_by_true_count config component =
    let checks = config.checks_by_component component in
    mark_table (config.weights component) (full_marks_at component checks) 0 (length checks)

-- `none` is the IndexError of `self.band_boundaries[-1]` on an empty tuple.
last_band : List (Band × ℕ) → Option Band
last_band [] = none
last_band ((band, upper) ∷ []) = some band
last_band ((band, upper) ∷ next ∷ rest) = last_band (next ∷ rest)

unfoldable pub first_band : ℕ → List (Band × ℕ) → Option Band → Option Band
first_band total [] top = top
first_band total ((band, upper) ∷ rest) top =
    let later = first_band total rest top in if leb total upper then some band else later

unfoldable pub band_for : TenantConfig → ℕ → Option Band
unfolding first_band last_band
band_for config total = first_band total config.band_boundaries (last_band config.band_boundaries)
