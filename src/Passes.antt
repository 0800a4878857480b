-- ===== src/Passes.antt =====
-- One pass of the model (src/dodeal_ai/units/structured_intelligence/llm_call.py).
--
-- What the client answers to a prompt, and pydantic's reading of a text as an answer of the pass, are
-- arguments. A call is made under the watchdog with no retry. The prompts themselves, the metrics and
-- the log lines are not here: the two prompts of a pass are told apart by the tail alone.
pub mod Charged
pub mod Vague
mod Examples
use do_deal_ai.Prelude.{
  ℕ, ◌+◌, Bool, true, false, Option, none, some, List, [], ◌∷◌, String, ◌==◌, if◌then◌else◌,
  Fallible, err, ok, length,
}
use do_deal_ai.Redis.{Redis}
use do_deal_ai.Limiter.{CostSettings, enforce_token_cost}
use do_deal_ai.Resilience.{Attempt, Policy, call_with_watchdog}
use do_deal_ai.Pipeline.Length.{Trip}
use do_deal_ai.Errors.{DodealError, model_unavailable, malformed_output}

pub data FinishReason : Type 0 where
  stop max_tokens other : FinishReason

pub record LlmResponse : Type 0 where
  pub text : String
  pub input_tokens : ℕ
  pub output_tokens : ℕ
  pub model : String
  pub finish_reason : FinishReason
  pub provider_request_id : Option String

-- One call of a pass: when it is made, and the charge that follows it.
pub record Call : Type 0 where
  pub at : ℕ
  pub charging : Trip

-- `call_with_watchdog(_send, timeout=settings.llm_timeout_seconds, retry=False)`.
abbrev pub never_retried : ℕ → Policy (Unit {0})
never_retried timeout = record {
  timeout = timeout;
  retry = false;
  retry_delay = none;
  deadline = none;
  timed_out = tt;
}

abbrev pub is_cut_off : FinishReason → Bool
is_cut_off max_tokens = true
is_cut_off stop = false
is_cut_off other = false

module _ {M : Type 0} (decode : String → Option M) (check : M → Bool) where
  abbrev pub checked : Option M → Option M
  checked none = none
  checked (some parsed) = if check parsed then some parsed else none

  -- `parse_output`: `none` is the OutputValidationError. `decode` is the JSON decoder and the schema.
  unfoldable pub parse_output : LlmResponse → Option M
  parse_output response =
      if is_cut_off response.finish_reason then none else checked (decode response.text)

module _ (redis : Redis) (settings : CostSettings) (timeout : ℕ) (tenant subject : String)
    (client : Bool → ℕ → Attempt (Unit {0}) LlmResponse) where
  open redis use {Store}

  -- The charge of one answered call; an answer that reports no usage is not charged.
  unfoldable pub charge_call : Trip → LlmResponse → Store → Store
  charge_call trip response s =
      if response.input_tokens + response.output_tokens == 0
      then s
      else (enforce_token_cost redis settings trip.link trip.at tenant subject response.input_tokens
          response.output_tokens s).1

  abbrev pub after_call :
      Trip → Fallible (Unit {0}) LlmResponse → Store → Fallible DodealError LlmResponse × Store
  after_call trip (err e) s = (err model_unavailable, s)
  after_call trip (ok response) s = (ok response, charge_call trip response s)

  -- `complete_once`, with the tail or without.
  unfoldable pub complete_once : Bool → Call → Store → Fallible DodealError LlmResponse × Store
  unfolding charge_call
  complete_once tailed made s =
      after_call made.charging
        (call_with_watchdog (never_retried timeout) (client tailed) made.at).result s

  module _ {M : Type 0} (decode : String → Option M) (check : M → Bool) where
    abbrev pub Answer : Type 0
    Answer = Fallible DodealError (M × LlmResponse) × Store

    abbrev pub parsed_or_malformed : LlmResponse → Option M → Store → Answer
    parsed_or_malformed response none s = (err malformed_output, s)
    parsed_or_malformed response (some parsed) s = (ok (parsed, response), s)

    abbrev pub after_second : Fallible DodealError LlmResponse × Store → Answer
    after_second (err e, s) = (err e, s)
    after_second (ok response, s) =
        parsed_or_malformed response (parse_output decode check response) s

    -- The first answer, read: good, or a reason for the one reprompt where it is allowed.
    abbrev pub after_parse : Bool → Call → LlmResponse → Option M → Store → Answer
    after_parse reprompt second response (some parsed) s = (ok (parsed, response), s)
    after_parse reprompt second response none s =
        if reprompt then after_second (complete_once true second s) else (err malformed_output, s)

    abbrev pub after_first : Bool → Call → Fallible DodealError LlmResponse × Store → Answer
    after_first reprompt second (err e, s) = (err e, s)
    after_first reprompt second (ok response, s) =
        after_parse reprompt second response (parse_output decode check response) s

    -- `call_model`.
    unfoldable pub call_model : Bool → Call → Call → Store → Answer
    unfolding complete_once parse_output
    call_model reprompt first second s = after_first reprompt second (complete_once false first s)
