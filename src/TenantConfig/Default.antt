-- ===== src/TenantConfig/Default.antt =====
-- The default rubric (src/dodeal_ai/units/structured_intelligence/config.py, the tables).
use do_deal_ai.Prelude.{ℕ, Bool, true, false, Option, none, some, List, [], ◌∷◌}
use do_deal_ai.Schemas.{
  NoteType, ComponentName, CheckName, MissingComponent, Band, poor, fair, good, excellent,
  EnforcementMode, wh_outcome, wh_action, cs_present, cs_own_terms, ns_action, ns_date, ns_closure,
  ds_figures, ds_subject, ds_timing, cl_readable, cl_substance,
}
use do_deal_ai.TenantConfig.{TenantConfig}

-- `_WEIGHTS`.
abbrev pub default_weights : ComponentName → ℕ
default_weights ComponentName.what_happened = 25
default_weights ComponentName.client_said = 20
default_weights ComponentName.next_step_date = 25
default_weights ComponentName.deal_specifics = 20
default_weights ComponentName.clarity = 10

-- `_BAND_BOUNDARIES`.
abbrev pub default_boundaries : List (Band × ℕ)
default_boundaries = (poor, 39) ∷ (fair, 69) ∷ (good, 84) ∷ (excellent, 100) ∷ []

-- `_CHECKS_BY_COMPONENT`.
abbrev pub default_checks : ComponentName → List CheckName
default_checks ComponentName.what_happened = wh_outcome ∷ wh_action ∷ []
default_checks ComponentName.client_said = cs_present ∷ cs_own_terms ∷ []
default_checks ComponentName.next_step_date = ns_action ∷ ns_date ∷ ns_closure ∷ []
default_checks ComponentName.deal_specifics = ds_figures ∷ ds_subject ∷ ds_timing ∷ []
default_checks ComponentName.clarity = cl_readable ∷ cl_substance ∷ []

no_contact_suppressed : ComponentName → Bool
no_contact_suppressed ComponentName.what_happened = true
no_contact_suppressed ComponentName.client_said = true
no_contact_suppressed ComponentName.deal_specifics = true
no_contact_suppressed ComponentName.next_step_date = false
no_contact_suppressed ComponentName.clarity = false

-- `_SUPPRESSED_COMPONENTS_BY_TYPE.get(note_type, frozenset())`.
unfoldable pub default_suppressed : NoteType → ComponentName → Bool
unfolding no_contact_suppressed
default_suppressed NoteType.no_contact component = no_contact_suppressed component
default_suppressed _ component = false

only_next_step : MissingComponent → Bool
only_next_step MissingComponent.next_step_with_date = true
only_next_step MissingComponent.what_happened = false
only_next_step MissingComponent.client_said = false

-- `_ALLOWED_MISSING_BY_TYPE`: no entry for a system event.
unfoldable pub default_allowed_missing : NoteType → Option (MissingComponent → Bool)
unfolding only_next_step
default_allowed_missing NoteType.no_contact = some only_next_step
default_allowed_missing NoteType.system_event = none
default_allowed_missing _ = some (λ component. true)

-- `_DEFAULT_CONFIG`.
abbrev pub default_config : TenantConfig
default_config = record {
  weights = default_weights;
  band_boundaries = default_boundaries;
  checks_by_component = default_checks;
  suppressed_components_by_type = default_suppressed;
  allowed_missing_by_type = default_allowed_missing;
  short_note_codes = "na" ∷ "wa" ∷ "cb" ∷ [];
  short_note_phrases =
      "not interested" ∷ "no answer" ∷ "no reply" ∷ "wrong number"
      ∷ "\u{644}\u{627} \u{64a}\u{631}\u{62f}" ∷ "\u{645}\u{634} \u{645}\u{647}\u{62a}\u{645}" ∷ [];
  short_note_fillers =
      "tmrw" ∷ "today" ∷ "bkra" ∷ "bokra" ∷ "am" ∷ "pm" ∷ "again" ∷ "\u{628}\u{643}\u{631}\u{629}"
      ∷ "\u{627}\u{644}\u{646}\u{647}\u{627}\u{631}\u{62f}\u{629}" ∷ [];
  accept_threshold = 70;
  flag_threshold = 40;
  deal_specifics_applicable = false;
  min_note_chars = 15;
  min_note_tokens = 3;
  max_note_chars = 2000;
  clarification_cap = 1;
  rate_limit_per_hour = 3;
  rate_limit_per_day = 10;
  rate_limit_window_seconds = 3600;
  attempt_ttl_seconds = 21600;
  idempotency_ttl_seconds = 86400;
  measure_evidence_floor = 10;
  rolling_window_days = 30;
  enforcement_mode = EnforcementMode.advisory;
  config_version = "tenant-cfg-default-4";
}
