-- ===== src/Passes/Examples.antt =====
-- A pass that is reprompted once (src/dodeal_ai/units/structured_intelligence/llm_call.py).
use do_deal_ai.Prelude.{
  ℕ, ◌≡◌, refl, Bool, true, false, Option, none, some, [], ◌∷◌, String, arith, ok,
}
use text.Mathlib.Text.{◌==◌ as str_eq}
use do_deal_ai.Schemas.{
  MissingComponent, next_step_with_date, NoteType, Checks, VagueOutput, NoteScore,
}
use do_deal_ai.TenantConfig.Default.{default_config, default_suppressed, default_allowed_missing}
use do_deal_ai.Scoring.{
  validate_checks, compute_score, applicable_checks, applicable_components, applies,
}
use do_deal_ai.Scoring.Examples.{bands, partly_answered}
use do_deal_ai.Redis.Links.{answered}
use do_deal_ai.Redis.Table.{Memory, empty, table}
use do_deal_ai.Limiter.{CostSettings}
use do_deal_ai.Resilience.{Attempt, call_with_watchdog}
use do_deal_ai.Passes.{LlmResponse, stop, Call, call_model}
use do_deal_ai.Passes.Charged.{Course, call_model-Course}
use do_deal_ai.Passes.Vague.{
  score_note, score_note-scored, Detected, detect_vagueness, IsUsable, detect_vagueness-IsUsable,
}

abbrev budget : CostSettings
budget = record {
  cost_per_tenant_limit = 100;
  cost_per_user_limit = 10;
  cost_window_seconds = 3600;
  cost_tokens_per_tenant_limit = 100000;
  cost_tokens_per_user_limit = 10000;
  warning_upper = 80;
  warning_lower = 100;
}

abbrev reply : String → LlmResponse
reply text = record {
  text = text;
  input_tokens = 300;
  output_tokens = 40;
  model = "m1";
  finish_reason = stop;
  provider_request_id = none;
}

-- Prose at first, the object once the tail asks for nothing else.
abbrev chatty : Bool → ℕ → Attempt (Unit {0}) LlmResponse
chatty true n = record {
  ends_with = ok (reply "{}");
  takes = 3;
  when_cancelled = none;
  winds_down = 2;
}
chatty false n = record {
  ends_with = ok (reply "Sure!");
  takes = 3;
  when_cancelled = none;
  winds_down = 2;
}

abbrev call_at : ℕ → Call
call_at at = record { at = at; charging = record { at = at; link = answered } }

abbrev read_checks : String → Option Checks
read_checks text = elim (str_eq text "{}") [ true ↦ some partly_answered | false ↦ none ]

call_model-Course_example :
    Course table budget 30 "acme" "ann" chatty read_checks
      (λ c. true)
      true
      (call_at 10)
      (call_at 20)
      empty
      (call_model table budget 30 "acme" "ann" chatty read_checks
        (λ c. true)
        true
        (call_at 10)
        (call_at 20)
        empty)
call_model-Course_example =
    call_model-Course table budget 30 "acme" "ann" chatty read_checks (λ c. true) true (call_at 10)
      (call_at 20) empty

abbrev after_pass : Memory
after_pass =
    (score_note table budget 30 "acme" "ann" chatty default_config NoteType.viewing read_checks true
      (call_at 10) (call_at 20) empty).1

pass_answers :
    score_note table budget 30 "acme" "ann" chatty default_config NoteType.viewing read_checks true
      (call_at 10)
      (call_at 20)
      empty
    ≡ (ok (partly_answered, reply "{}"), after_pass)
unfolding score_note call_model call_with_watchdog validate_checks applicable_checks applies
    default_suppressed
pass_answers = refl

score_note-scored_example :
    (score : NoteScore) × (compute_score partly_answered NoteType.viewing default_config ≡ ok score)
unfolding applicable_components applies default_suppressed
score_note-scored_example =
    score_note-scored table budget 30 "acme" "ann" chatty default_config NoteType.viewing
      read_checks true (call_at 10) (call_at 20) empty after_pass partly_answered (reply "{}") bands
      (omega arith) pass_answers

-- A no-contact note may miss its next step alone.
abbrev step_missing : VagueOutput
step_missing = record {
  is_vague = true;
  missing_components = next_step_with_date ∷ [];
  clarification_prompt = some "When will you try again?";
  reasoning = "no date";
}

abbrev client_missing : VagueOutput
client_missing = record step_missing { missing_components = MissingComponent.client_said ∷ [] }

-- The first answer names what the type does not allow, the second what it does.
abbrev read_vague : String → Option VagueOutput
read_vague text = elim (str_eq text "{}") [ true ↦ some step_missing | false ↦ some client_missing ]

abbrev store_of :
    Option (Detected table budget 30 "acme" "ann" chatty default_config NoteType.no_contact)
    → Memory
store_of none = empty
store_of (some d) = d.1

abbrev after_detection : Memory
after_detection = store_of (
    detect_vagueness table budget 30 "acme" "ann" chatty default_config NoteType.no_contact
      read_vague true (call_at 10) (call_at 20) empty)

detection_answers :
    detect_vagueness table budget 30 "acme" "ann" chatty default_config NoteType.no_contact
      read_vague true
      (call_at 10)
      (call_at 20)
      empty
    ≡ some (ok (step_missing, reply "{}"), after_detection)
unfolding detect_vagueness call_model call_with_watchdog default_allowed_missing
detection_answers = refl

detect_vagueness-IsUsable_example :
    (named : MissingComponent → Bool) × (default_config.allowed_missing_by_type NoteType.no_contact
      ≡ some named)
    × IsUsable table budget 30 "acme" "ann" chatty default_config NoteType.no_contact named
        step_missing
detect_vagueness-IsUsable_example =
    detect_vagueness-IsUsable table budget 30 "acme" "ann" chatty default_config NoteType.no_contact
      read_vague true (call_at 10) (call_at 20) empty after_detection step_missing (reply "{}")
      detection_answers
