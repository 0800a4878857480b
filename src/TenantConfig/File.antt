-- ===== src/TenantConfig/File.antt =====
-- A tenant's file over the default, and the invariants that a file has to meet
-- (src/dodeal_ai/units/structured_intelligence/config.py).
pub mod Accepted
use do_deal_ai.Prelude.{
  Fallible, ok, err, ◌>>=◌, ◌>>◌, ℕ, ◌+◌, Bool, true, false, not, ◌&&◌, ◌||◌, Option, none, some,
  List, [], ◌∷◌, ◌++◌, String, ltb, leb, ◌==◌, if◌then◌else◌, length, all, any, count_if, sum_of,
}
use text.Mathlib.Text.{◌==◌ as str_eq}
use do_deal_ai.Prelude.Int.{ℤ, pos, negsuc}
use do_deal_ai.Schemas.{
  NoteType, ComponentName, CheckName, MissingComponent, Band, poor, fair, good, excellent,
  EnforcementMode, wh_outcome, wh_action, cs_present, cs_own_terms, ns_action, ns_date, ns_closure,
  ds_figures, ds_subject, ds_timing, cl_readable, cl_substance, all_components, all_checks,
  all_bands, is_component, is_check, is_band,
}
use do_deal_ai.TenantConfig.{TenantConfig}
use do_deal_ai.TenantConfig.Default.{default_weights, default_boundaries, default_config}

-- What a rejected section raises: a field bound of the file (a ValidationError), one of the
-- ValueErrors of `_check`, or the IndexError of `uppers[0]`.
pub data ConfigError : Type 0 where
  field weights weights_sum weights_applicable band_boundaries : ConfigError
  empty_boundaries checks_coverage thresholds note_bounds : ConfigError

abbrev pub Result {ℓ} : Type ℓ → Type ℓ
Result A = Fallible ConfigError A

abbrev pub refuse_unless : Bool → ConfigError → Result (Unit {0})
refuse_unless true e = ok tt
refuse_unless false e = err e

-- A tenant's `unit_a` section: `none` is a field that the file leaves out.
pub record TenantConfigFile : Type 0 where
  pub version : String
  pub weights_set : Option (ComponentName → Option ℤ)
  pub boundaries_set : Option (List (Band × ℤ))
  pub short_note_codes_set : Option (List String)
  pub short_note_phrases_set : Option (List String)
  pub short_note_fillers_set : Option (List String)
  pub accept_threshold_set : Option ℕ
  pub flag_threshold_set : Option ℕ
  pub min_note_chars_set : Option ℕ
  pub min_note_tokens_set : Option ℕ
  pub max_note_chars_set : Option ℕ
  pub clarification_cap_set : Option ℕ
  pub rate_limit_per_hour_set : Option ℕ
  pub rate_limit_per_day_set : Option ℕ
  pub rate_limit_window_seconds_set : Option ℕ
  pub attempt_ttl_seconds_set : Option ℕ
  pub idempotency_ttl_seconds_set : Option ℕ
  pub measure_evidence_floor_set : Option ℕ
  pub rolling_window_days_set : Option ℕ
  pub enforcement_mode_set : Option EnforcementMode

abbrev pub over {ℓ} : {A : Type ℓ} → Option A → A → A
over none default = default
over (some a) default = a

-- `MAX_NOTE_TEXT_CHARS` of schemas.py.
abbrev pub max_note_text_chars : ℕ
max_note_text_chars = 4000

within : ℕ → ℕ → Option ℕ → Bool
within low high none = true
within low high (some n) = leb low n && leb n high

at_least : ℕ → Option ℕ → Bool
at_least low none = true
at_least low (some n) = leb low n

-- The bounds on the fields, `Field(ge=..., le=...)`.
field_bounds : TenantConfigFile → Bool
unfolding within at_least
field_bounds file =
    not (str_eq file.version "")
    && within 0 100 file.accept_threshold_set
    && within 0 100 file.flag_threshold_set
    && at_least 1 file.min_note_chars_set
    && at_least 1 file.min_note_tokens_set
    && within 1 max_note_text_chars file.max_note_chars_set
    && at_least 1 file.rate_limit_window_seconds_set
    && at_least 1 file.attempt_ttl_seconds_set
    && at_least 1 file.idempotency_ttl_seconds_set
    && at_least 1 file.measure_evidence_floor_set
    && at_least 1 file.rolling_window_days_set

is_natural : Option ℤ → Bool
is_natural none = false
is_natural (some (pos n)) = true
is_natural (some (negsuc n)) = false

natural : Option ℤ → ℕ
natural none = 0
natural (some (pos n)) = n
natural (some (negsuc n)) = 0

-- Every component has a weight, and none is negative: then the weights are natural numbers.
check_weights : Option (ComponentName → Option ℤ) → Result (ComponentName → ℕ)
unfolding is_natural natural
check_weights none = ok default_weights
check_weights (some set) =
    if all (λ c. is_natural (set c)) all_components then ok (λ c. natural (set c)) else err weights

-- `any(weight for ... if component is not DEAL_SPECIFICS or ...)`.
unfoldable pub some_weight_applies : (ComponentName → ℕ) → Bool → Bool
some_weight_applies set applicable =
    any (λ c. (not (is_component c ComponentName.deal_specifics) || applicable) && not (set c == 0))
      all_components

-- `uppers == sorted(set(uppers)) and uppers[0] >= 0`, for the bounds after the first.
ascending_from : ℤ → List (Band × ℤ) → Bool
ascending_from (negsuc low) rest = false
ascending_from (pos low) [] = true
ascending_from (pos low) ((band, negsuc n) ∷ rest) = false
ascending_from (pos low) ((band, pos n) ∷ rest) = ltb low n && ascending_from (pos n) rest

same_bands : List (Band × ℤ) → List Band → Bool
same_bands [] [] = true
same_bands [] (b ∷ bs) = false
same_bands (entry ∷ rest) [] = false
same_bands ((band, upper) ∷ rest) (b ∷ bs) = is_band band b && same_bands rest bs

ends_at : ℕ → List (Band × ℤ) → Bool
ends_at n [] = false
ends_at n ((band, upper) ∷ []) = natural (some upper) == n
ends_at n (entry ∷ next ∷ rest) = ends_at n (next ∷ rest)

natural_bounds : List (Band × ℤ) → List (Band × ℕ)
unfolding natural
natural_bounds [] = []
natural_bounds ((band, upper) ∷ rest) = (band, natural (some upper)) ∷ natural_bounds rest

check_boundaries : Option (List (Band × ℤ)) → Result (List (Band × ℕ))
unfolding ascending_from same_bands ends_at natural_bounds
check_boundaries none = ok default_boundaries
check_boundaries (some []) = err empty_boundaries
check_boundaries (some ((band, upper) ∷ rest)) =
    if same_bands ((band, upper) ∷ rest) all_bands
      && ascending_from upper rest
      && ends_at 100 ((band, upper) ∷ rest)
    then ok (natural_bounds ((band, upper) ∷ rest))
    else err band_boundaries

-- `sorted(all_checks) == sorted(CheckName)`: every check stands in the lists exactly once.
checks_covered : (ComponentName → List CheckName) → Bool
checks_covered checks =
    let listed =
      checks ComponentName.what_happened
      ++ (checks ComponentName.client_said
          ++ (checks ComponentName.next_step_date
              ++ (checks ComponentName.deal_specifics ++ checks ComponentName.clarity))) in
    all (λ check. count_if (is_check check) listed == 1) all_checks

-- `dataclasses.replace(_DEFAULT_CONFIG, **updates)`, with the weights and boundaries that were checked.
unfoldable pub replace_default :
    TenantConfigFile → (ComponentName → ℕ) → List (Band × ℕ) → TenantConfig
replace_default file set_weights boundaries = record {
  weights = set_weights;
  band_boundaries = boundaries;
  checks_by_component = default_config.checks_by_component;
  suppressed_components_by_type = default_config.suppressed_components_by_type;
  allowed_missing_by_type = default_config.allowed_missing_by_type;
  short_note_codes = over file.short_note_codes_set default_config.short_note_codes;
  short_note_phrases = over file.short_note_phrases_set default_config.short_note_phrases;
  short_note_fillers = over file.short_note_fillers_set default_config.short_note_fillers;
  accept_threshold = over file.accept_threshold_set default_config.accept_threshold;
  flag_threshold = over file.flag_threshold_set default_config.flag_threshold;
  deal_specifics_applicable = default_config.deal_specifics_applicable;
  min_note_chars = over file.min_note_chars_set default_config.min_note_chars;
  min_note_tokens = over file.min_note_tokens_set default_config.min_note_tokens;
  max_note_chars = over file.max_note_chars_set default_config.max_note_chars;
  clarification_cap = over file.clarification_cap_set default_config.clarification_cap;
  rate_limit_per_hour = over file.rate_limit_per_hour_set default_config.rate_limit_per_hour;
  rate_limit_per_day = over file.rate_limit_per_day_set default_config.rate_limit_per_day;
  rate_limit_window_seconds =
      over file.rate_limit_window_seconds_set default_config.rate_limit_window_seconds;
  attempt_ttl_seconds = over file.attempt_ttl_seconds_set default_config.attempt_ttl_seconds;
  idempotency_ttl_seconds =
      over file.idempotency_ttl_seconds_set default_config.idempotency_ttl_seconds;
  measure_evidence_floor =
      over file.measure_evidence_floor_set default_config.measure_evidence_floor;
  rolling_window_days = over file.rolling_window_days_set default_config.rolling_window_days;
  enforcement_mode = over file.enforcement_mode_set default_config.enforcement_mode;
  config_version = file.version;
}

-- `TenantConfigFile.build`, with `_check` on the result: its tests in their order.
build : TenantConfigFile → Result TenantConfig
build file = do
  set_weights ← check_weights file.weights_set
  refuse_unless (sum_of set_weights all_components == 100) weights_sum
  refuse_unless (some_weight_applies set_weights default_config.deal_specifics_applicable)
      weights_applicable
  boundaries ← check_boundaries file.boundaries_set
  let config = replace_default file set_weights boundaries
  refuse_unless (checks_covered config.checks_by_component) checks_coverage
  refuse_unless (ltb config.flag_threshold config.accept_threshold) thresholds
  refuse_unless (ltb config.min_note_chars config.max_note_chars) note_bounds
  ok config

-- `parse_unit_a_section`, on a section whose fields have the declared types.
unfoldable pub parse_unit_a_section : TenantConfigFile → Result TenantConfig
unfolding field_bounds build check_weights some_weight_applies check_boundaries checks_covered
    replace_default
parse_unit_a_section file = refuse_unless (field_bounds file) field >> build file
