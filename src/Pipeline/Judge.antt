-- ===== src/Pipeline/Judge.antt =====
-- One judgement from the length gate down
-- (src/dodeal_ai/units/structured_intelligence/pipeline.py, `_judge`, `_existing_judgement`,
-- `_suppressed`, `_versions`).
--
-- The store is passed along, and an exception is a value beside the store that it leaves. What the
-- models answer, the pre-flight's verdict, the fingerprint and the two JSON functions of pydantic are
-- arguments. An await can end with the deadline, a disconnect or a shutdown: `cancelled` says at which
-- step this happens, after what the step's call has done to the store. The prompts, the redaction, the
-- outcome lines and the warning of a mixed judgement are not here.
pub mod Steps
pub mod Rules
pub mod Shape
pub mod Body
pub mod Replies
pub mod Failure
pub mod Progress
pub mod Stored
pub mod Replay
mod Examples
use do_deal_ai.Prelude.{
  ℕ, Bool, true, false, not, ◌&&◌, ◌==◌, Option, none, some, [], String, if◌then◌else◌, Fallible,
  err, ok,
}
use do_deal_ai.Schemas.{
  NoteType, ClassifierOutput, unclassifiable, Checks, SuppressedReason, not_scorable,
  SuppressedDetail, PromptWithheld, NoteAnalysis, NoteScore, Decision, Judgement, VagueOutput,
  Versions,
}
use do_deal_ai.TenantConfig.{TenantConfig}
use do_deal_ai.Scoring.{compute_score}
use do_deal_ai.Decide.{enforcement}
use do_deal_ai.Limiter.{Preflight, full, degraded, token_budget_exceeded}
use do_deal_ai.Redis.{Redis}
use do_deal_ai.State.{
  reserve_idempotency, release_idempotency, confirm_idempotency, read_confirmed_judgement,
  take_over_idempotency, read_attempts, write_attempt_fingerprint,
}
use do_deal_ai.Pipeline.{decision_on}
use do_deal_ai.Pipeline.Length.{
  Text, FixedQuestions, Trip, length_gate, fixed_clarification_prompt, fixed_question,
}

-- What can be raised: the errors of this module, those of a pass, and what is not an Exception.
pub data Raised : Type 0 where
  idempotency_unavailable duplicate_request token_budget : Raised
  model_unavailable malformed_output scoring_failed assertion_failed cancellation : Raised

-- The awaits.
pub data Stage : Type 0 where
  at_question at_reserve at_existing at_attempts at_preflight at_classify : Stage
  at_vague_and_score at_decision at_confirm at_reference : Stage

-- The settled fields of the scope and the request, and what the note's text gives.
pub record Request : Type 0 where
  pub tenant : String
  pub subject : String
  pub request_id : String
  pub note_id : ℕ
  pub lead_id : ℕ
  pub author_id : ℕ
  pub note : String
  pub fingerprint : String
  pub resubmission : Bool

-- The trips to the store, the answers of the passes, and the step at which the judgement is cancelled.
-- `score_first` tells which of the two gathered passes ends first.
pub record Run : Type 0 where
  pub asking_reads : Trip
  pub asking_takes : Trip
  pub reserving : Trip
  pub existing : Trip
  pub taking_over : Trip
  pub attempts_read : Trip
  pub deciding : Trip
  pub first_asked : Trip
  pub confirming : Trip
  pub releasing : Trip
  pub referring : Trip
  pub preflight : Preflight
  pub classify : Bool → Fallible Raised (ClassifierOutput × String)
  pub detect_vagueness : Bool → NoteType → Fallible Raised (VagueOutput × String)
  pub score_note : Bool → NoteType → Fallible Raised (Checks × String)
  pub score_first : Bool
  pub cancelled : Stage → Bool

-- What one deployment fixes: the two JSON functions, the lifetime of a reservation (four deadlines,
-- rounded up), and the stamps of the rubric and the prompts.
pub record Deployment : Type 0 where
  pub dump : Judgement → String
  pub validate : String → Option Judgement
  pub inflight_ttl : ℕ
  pub rubric_version : String
  pub prompt_version : String
  pub questions : FixedQuestions

-- What the caller gets, with the number of passes that ran.
pub data Reply : Type 0 where
  judged : Judgement → ℕ → Reply
  replayed : Judgement → Reply

-- `NO_MODEL`.
abbrev pub no_model : String
no_model = ""

-- classify.py, `suppression_for`.
unfoldable pub suppression_for : ClassifierOutput → Option SuppressedDetail
suppression_for (ClassifierOutput.note_type NoteType.system_event) =
    some SuppressedDetail.system_event
suppression_for unclassifiable = some SuppressedDetail.unclassifiable
suppression_for (ClassifierOutput.note_type _) = none

-- A computation on the store that may raise.
abbrev pub Body : Type 0 → Type 0 → Type 0
Body S A = S → Fallible Raised A × S

abbrev pub and_then :
    {S A B : Type 0} → (A → Body S B) → Fallible Raised A × S → Fallible Raised B × S
and_then next (err e, s) = (err e, s)
and_then next (ok a, s) = next a s

infixl 5 ◌>>=◌ ◌>>◌
abbrev pub ◌>>=◌ : {S A B : Type 0} → Body S A → (A → Body S B) → Body S B
◌>>=◌ first next s = and_then next (first s)

abbrev pub ◌>>◌ : {S B : Type 0} → Body S (Unit {0}) → Body S B → Body S B
◌>>◌ first next = first >>= λ _. next

abbrev pub pure : {S A : Type 0} → A → Body S A
pure a s = (ok a, s)

abbrev pub lift : {S A : Type 0} → Fallible Raised A → Body S A
lift r s = (r, s)

-- A step that only reads the store, and one that only changes it.
abbrev pub reading : {S A : Type 0} → (S → A) → Body S A
reading f s = (ok (f s), s)

abbrev pub writing : {S : Type 0} → (S → S) → Body S (Unit {0})
writing f s = (ok tt, f s)

-- An await at which the judgement may be cancelled.
abbrev pub await_at : {S : Type 0} → Run → Stage → Body S (Unit {0})
await_at run stage s = (if run.cancelled stage then err cancellation else ok tt, s)

-- `gather_or_cancel` of two passes: the exception that comes first is the one raised.
unfoldable pub gather :
    {A B : Type 0} → Bool → Fallible Raised A → Fallible Raised B → Fallible Raised (A × B)
gather second_first (ok a) (ok b) = ok (a, b)
gather second_first (ok a) (err f) = err f
gather second_first (err e) (ok b) = err e
gather second_first (err e) (err f) = err (if second_first then f else e)

-- `not await token_preflight(scope)`.
unfoldable pub may_reprompt : Preflight → Fallible Raised Bool
may_reprompt token_budget_exceeded = err token_budget
may_reprompt degraded = ok false
may_reprompt full = ok true

-- A ValueError of the arithmetic.
unfoldable pub scored : Checks → NoteType → TenantConfig → Fallible Raised NoteScore
scored checks type config = elim (compute_score checks type config) [
  | err e ↦ err scoring_failed
  | ok score ↦ ok score
]

unfoldable pub versions_of : Deployment → TenantConfig → String → Versions
versions_of deployment config model = record {
  rubric_version = deployment.rubric_version;
  prompt_version = deployment.prompt_version;
  model_version = model;
  config_version = config.config_version;
}

abbrev pub empty_analysis : NoteAnalysis
empty_analysis = record {
  analysed_type = none;
  is_vague = none;
  missing_components = [];
  clarification_prompt = none;
  reasoning = none;
}

abbrev pub analysis_of : NoteType → VagueOutput → NoteAnalysis
analysis_of type output = record {
  analysed_type = some (ClassifierOutput.note_type type);
  is_vague = some output.is_vague;
  missing_components = output.missing_components;
  clarification_prompt = output.clarification_prompt;
  reasoning = some output.reasoning;
}

module _ (deployment : Deployment) (config : TenantConfig) (request : Request) where
  unfoldable pub suppressed_judgement :
      SuppressedReason
      → SuppressedDetail
      → NoteAnalysis
      → String
      → Option String
      → Option PromptWithheld
      → Judgement
  unfolding versions_of
  suppressed_judgement reason detail analysis model prompt withheld = record {
    note_id = request.note_id;
    lead_id = request.lead_id;
    author_id = request.author_id;
    analysis = analysis;
    score = none;
    decision = none;
    suppressed = some (record {
      reason = reason;
      detail_code = detail;
      clarification_prompt = prompt;
      prompt_withheld = withheld;
    });
    enforced = enforcement config none (some detail);
    versions = versions_of deployment config model;
    request_id = request.request_id;
  }

  unfoldable pub scored_judgement : NoteAnalysis → NoteScore → Decision → String → Judgement
  unfolding versions_of
  scored_judgement analysis score decision model = record {
    note_id = request.note_id;
    lead_id = request.lead_id;
    author_id = request.author_id;
    analysis = analysis;
    score = some score;
    decision = some decision;
    suppressed = none;
    enforced = enforcement config (some decision.action) none;
    versions = versions_of deployment config model;
    request_id = request.request_id;
  }

-- `decision is not None and decision.prompt_sent`.
abbrev pub was_sent : Option Decision → Bool
was_sent none = false
was_sent (some decision) = decision.prompt_sent
