-- ===== src/Providers.antt =====
-- The language model providers (src/dodeal_ai/core/llm/openai_compatible.py and
-- src/dodeal_ai/core/llm/fallback.py).
--
-- What the HTTP client does with a request is an argument, and so is the decoded body of a reply. The
-- profile has been resolved and the request built. Between the arrival of a call and its end, other
-- calls go through the provider's breaker: their events are an argument too.
pub mod Fallback
pub mod Evidence
mod Examples
use do_deal_ai.Prelude.{
  ℕ, zero, suc, Bool, true, false, ◌&&◌, ◌||◌, Option, none, some, List, [], ◌∷◌, ◌++◌, String,
  ◌==◌, leb, if◌then◌else◌, Fallible, err, ok,
}
use Prim.Native.Char.{Char, code}
use text.Mathlib.Text.{◌==◌ as str_eq}
use do_deal_ai.Breaker.{
  CircuitBreaker, Outcome, success, uncounted, counted, other_error, Event, admit, settle, run,
}
use do_deal_ai.Passes.{FinishReason, stop, max_tokens, other, LlmResponse}

pub data Reason : Type 0 where
  rate_limited unavailable auth invalid_request unknown : Reason
  provider_pool_exhausted breaker_open : Reason

-- `OpenAICompatibleError`.
pub record ProviderError : Type 0 where
  pub reason : Reason
  pub transient : Bool
  pub status : Option ℕ
  pub trips_breaker : Bool
  pub fallback_eligible : Bool

-- The fields of a completion that `_parse` reads; a text that is not one is `none`.
pub record Completion : Type 0 where
  pub text : Option String
  pub prompt_tokens : ℕ
  pub completion_tokens : ℕ
  pub model : String
  pub finish_reason : Option String
  pub id : Option String

-- A response: its two request id headers, and its body where that decodes with every field.
pub record HttpResponse : Type 0 where
  pub status : ℕ
  pub headers : List (Option String)
  pub body : Option Completion

-- What comes of the one HTTP call.
pub data Sending : Type 0 where
  pool_timeout timeout connect_error protocol_error : Sending
  replied : HttpResponse → Sending

-- `_status_error`.
unfoldable pub status_error : ℕ → ProviderError
status_error status =
    if status == 401 || status == 403
    then record {
      reason = auth;
      transient = false;
      status = some status;
      trips_breaker = false;
      fallback_eligible = false;
    }
    else if status == 429
    then record {
      reason = rate_limited;
      transient = true;
      status = some status;
      trips_breaker = true;
      fallback_eligible = true;
    }
    else if leb 500 status
    then record {
      reason = unavailable;
      transient = true;
      status = some status;
      trips_breaker = true;
      fallback_eligible = status == 503;
    }
    else record {
      reason = if status == 400 then invalid_request else unknown;
      transient = false;
      status = some status;
      trips_breaker = false;
      fallback_eligible = false;
    }

-- An error with no response behind it: all four are transient.
abbrev pub unanswered : Reason → Bool → Bool → ProviderError
unanswered reason trips eligible = record {
  reason = reason;
  transient = true;
  status = none;
  trips_breaker = trips;
  fallback_eligible = eligible;
}

-- `_refused`.
abbrev pub refused : ProviderError
refused = unanswered breaker_open false true

-- `_post`.
unfoldable pub post : Sending → Fallible ProviderError HttpResponse
unfolding status_error
post pool_timeout = err (unanswered provider_pool_exhausted false false)
post timeout = err (unanswered unavailable true false)
post connect_error = err (unanswered unavailable true true)
post protocol_error = err (unanswered unavailable false false)
post (replied response) =
    if response.status == 200 then ok response else err (status_error response.status)

abbrev pub is_token_char : Char → Bool
is_token_char c =
    (leb b'a' (code c) && leb (code c) b'z')
    || (leb b'A' (code c) && leb (code c) b'Z')
    || (leb b'0' (code c) && leb (code c) b'9')
    || code c == b'_'
    || code c == b'-'

-- At most `n` characters of a request id.
abbrev pub token_within : ℕ → String → Bool
token_within n String.[] = true
token_within zero (String.◌∷◌ c s) = false
token_within (suc n) (String.◌∷◌ c s) = is_token_char c && token_within n s

-- `_REQUEST_ID.fullmatch`.
abbrev pub is_token : Option String → Bool
is_token none = false
is_token (some String.[]) = false
is_token (some (String.◌∷◌ c s)) = token_within 128 (String.◌∷◌ c s)

abbrev pub first_token : List (Option String) → Option String
first_token [] = none
first_token (value ∷ values) = if is_token value then value else first_token values

-- `_FINISH_REASONS.get`.
abbrev pub finish_reason_of : Option String → FinishReason
finish_reason_of none = other
finish_reason_of (some reason) =
    if str_eq reason "stop" then stop else if str_eq reason "length" then max_tokens else other

abbrev pub unreadable : ℕ → ProviderError
unreadable status = record {
  reason = unknown;
  transient = true;
  status = some status;
  trips_breaker = false;
  fallback_eligible = false;
}

abbrev pub parse_text :
    HttpResponse → Completion → Option String → Fallible ProviderError LlmResponse
parse_text response body none = err (unreadable response.status)
parse_text response body (some text) = ok (record {
  text = text;
  input_tokens = body.prompt_tokens;
  output_tokens = body.completion_tokens;
  model = body.model;
  finish_reason = finish_reason_of body.finish_reason;
  provider_request_id = first_token (response.headers ++ body.id ∷ []);
})

-- `_parse`.
abbrev pub parse_body : HttpResponse → Option Completion → Fallible ProviderError LlmResponse
parse_body response none = err (unreadable response.status)
parse_body response (some body) = parse_text response body body.text

abbrev pub parsed : Fallible ProviderError HttpResponse → Fallible ProviderError LlmResponse
parsed (err e) = err e
parsed (ok response) = parse_body response response.body

abbrev pub is_pool_exhausted : Reason → Bool
is_pool_exhausted provider_pool_exhausted = true
is_pool_exhausted _ = false

-- `_never_reached_provider`, then `_trips_breaker`.
unfoldable pub outcome_of : Fallible ProviderError HttpResponse → Outcome
outcome_of (ok response) = success
outcome_of (err e) =
    if is_pool_exhausted e.reason
    then uncounted
    else if e.trips_breaker
    then counted
    else other_error

-- One call of a client: when it arrives, what goes through the breaker meanwhile, and how it ends.
pub record Exchange : Type 0 where
  pub arrives : ℕ
  pub meanwhile : List Event
  pub ends : ℕ
  pub sending : Sending

abbrev pub after_admit :
    Exchange → Bool × CircuitBreaker → Fallible ProviderError LlmResponse × CircuitBreaker
after_admit x (false, b) = (err refused, b)
after_admit x (true, b) =
    (parsed (post x.sending), settle x.ends (outcome_of (post x.sending)) (run x.meanwhile b))

-- `OpenAICompatibleClient.complete`.
unfoldable pub complete :
    Exchange → CircuitBreaker → Fallible ProviderError LlmResponse × CircuitBreaker
unfolding post outcome_of
complete x b = after_admit x (admit x.arrives b)

-- What both providers' breakers are after a call, and its result.
abbrev pub Served : Type 0
Served = Fallible ProviderError LlmResponse × (CircuitBreaker × CircuitBreaker)

abbrev pub or_second :
    Exchange → CircuitBreaker → Fallible ProviderError LlmResponse × CircuitBreaker → Served
or_second second behind (ok response, b) = (ok response, (b, behind))
or_second second behind (err e, b) =
    if e.fallback_eligible
    then (let (result, behind') = complete second behind in (result, (b, behind')))
    else (err e, (b, behind))

-- `FallbackLLMClient.complete`.
unfoldable pub complete_either : Exchange → Exchange → CircuitBreaker → CircuitBreaker → Served
unfolding complete
complete_either first second b behind = or_second second behind (complete first b)
