-- ===== src/TenantConfig/Examples.antt =====
-- A tenant's section over the default (src/dodeal_ai/units/structured_intelligence/config.py).
use do_deal_ai.Prelude.{ok, ℕ, ◌≡◌, refl, [], ◌∷◌, none, some, arith}
use do_deal_ai.Prelude.Int.{pos}
use do_deal_ai.Schemas.{ComponentName, poor, fair, good, excellent, EnforcementMode}
use do_deal_ai.TenantConfig.{TenantConfig, band_for}
use do_deal_ai.TenantConfig.Default.{default_config}
use do_deal_ai.TenantConfig.File.{TenantConfigFile, parse_unit_a_section}
use do_deal_ai.TenantConfig.File.Accepted.{IsAccepted, parse_unit_a_section-IsAccepted}

abbrev strict_weights : ComponentName → ℕ
strict_weights ComponentName.what_happened = 30
strict_weights ComponentName.client_said = 20
strict_weights ComponentName.next_step_date = 30
strict_weights ComponentName.deal_specifics = 10
strict_weights ComponentName.clarity = 10

-- New weights and bands, a higher accept threshold and the strict mode.
abbrev strict_file : TenantConfigFile
strict_file = record {
  version = "strict-1";
  weights_set = some (λ c. some (pos (strict_weights c)));
  boundaries_set =
      some ((poor, pos 20) ∷ (fair, pos 50) ∷ (good, pos 90) ∷ (excellent, pos 100) ∷ []);
  short_note_codes_set = none;
  short_note_phrases_set = none;
  short_note_fillers_set = none;
  accept_threshold_set = some 80;
  flag_threshold_set = none;
  min_note_chars_set = some 20;
  min_note_tokens_set = none;
  max_note_chars_set = none;
  clarification_cap_set = some 2;
  rate_limit_per_hour_set = none;
  rate_limit_per_day_set = none;
  rate_limit_window_seconds_set = none;
  attempt_ttl_seconds_set = none;
  idempotency_ttl_seconds_set = none;
  measure_evidence_floor_set = none;
  rolling_window_days_set = some 7;
  enforcement_mode_set = some EnforcementMode.strict;
}

abbrev strict_config : TenantConfig
strict_config = record default_config {
  weights = strict_weights;
  band_boundaries = (poor, 20) ∷ (fair, 50) ∷ (good, 90) ∷ (excellent, 100) ∷ [];
  accept_threshold = 80;
  min_note_chars = 20;
  clarification_cap = 2;
  rolling_window_days = 7;
  enforcement_mode = EnforcementMode.strict;
  config_version = "strict-1";
}

strict_file-parsed : parse_unit_a_section strict_file ≡ ok strict_config
unfolding parse_unit_a_section
strict_file-parsed = ground arith

parse_unit_a_section-IsAccepted_example : IsAccepted strict_config
parse_unit_a_section-IsAccepted_example =
    parse_unit_a_section-IsAccepted strict_file strict_config strict_file-parsed

seventy_good : band_for default_config 70 ≡ some good
unfolding band_for
seventy_good = refl

ninety_excellent : band_for default_config 90 ≡ some excellent
unfolding band_for
ninety_excellent = refl
