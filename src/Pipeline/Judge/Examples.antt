-- ===== src/Pipeline/Judge/Examples.antt =====
-- A note judged, a pass that fails, and a request repeated (src/dodeal_ai/units/structured_intelligence/pipeline.py).
use do_deal_ai.Prelude.{ℕ, ◌≡◌, ◌≢◌, refl, true, false, none, some, [], ◌∷◌, String, ok, err, arith}
use do_deal_ai.Schemas.{
  NoteType, ClassifierOutput, MissingComponent, not_scorable, SuppressedDetail, VagueOutput,
  Judgement,
}
use do_deal_ai.Limiter.{full}
use do_deal_ai.Scoring.{compute_score}
use do_deal_ai.Scoring.Examples.{partly_answered, partly_scored, partly-computed}
use do_deal_ai.TenantConfig.Default.{default_config}
use do_deal_ai.Redis.Links.{answered}
use do_deal_ai.State.{reserve_idempotency}
use do_deal_ai.Redis.Table.{Memory, empty, table}
use do_deal_ai.Pipeline.Ascii.{ascii}
use do_deal_ai.Pipeline.Length.{Trip, length_gate}
use do_deal_ai.Pipeline.Judge.{
  gather, Deployment, Request, Run, judged, replayed, model_unavailable, suppressed_judgement,
  empty_analysis,
}
use do_deal_ai.Pipeline.Judge.Rules.{Ends}
use do_deal_ai.Pipeline.Judge.Steps.{judge}
use do_deal_ai.Pipeline.Judge.Replies.{IsReply, judge-IsReply}
use do_deal_ai.Pipeline.Judge.Failure.{IsJudged, FreeOrConfirmed, failure_frees_key}
use do_deal_ai.Pipeline.Judge.Progress.{judge-returns}
use do_deal_ai.Pipeline.Judge.Replay.{replay_lem}

-- A deployment whose JSON is not read back, for what does not replay.
abbrev plain : Deployment
plain = record {
  dump = λ j. "{}";
  validate = λ raw. none;
  inflight_ttl = 240;
  rubric_version = "rubric-3";
  prompt_version = "prompts-5";
  questions = record { arabic = "?"; english = "What was agreed?" };
}

abbrev short_note : String
short_note = "cb1, tmrw."

abbrev request : Request
request = record {
  tenant = "acme";
  subject = "ann";
  request_id = "r1";
  note_id = 7;
  lead_id = 3;
  author_id = 12;
  note = short_note;
  fingerprint = "f";
  resubmission = false;
}

abbrev trip : ℕ → Trip
trip at = record { at = at; link = answered }

abbrev vague_output : VagueOutput
vague_output = record {
  is_vague = true;
  missing_components = MissingComponent.what_happened ∷ [];
  clarification_prompt = some "What happened?";
  reasoning = "thin";
}

gate_open : length_gate ascii default_config short_note ≡ none
unfolding length_gate
gate_open = refl

-- One run of the three passes over a viewing.
abbrev run_scored : Run
run_scored = record {
  asking_reads = trip 10;
  asking_takes = trip 10;
  reserving = trip 10;
  existing = trip 10;
  taking_over = trip 10;
  attempts_read = trip 11;
  deciding = trip 20;
  first_asked = trip 20;
  confirming = trip 21;
  releasing = trip 22;
  referring = trip 22;
  preflight = full;
  classify = λ reprompt. ok (ClassifierOutput.note_type NoteType.viewing, "m1");
  detect_vagueness = λ reprompt type. ok (vague_output, "m1");
  score_note = λ reprompt type. ok (partly_answered, "m1");
  score_first = false;
  cancelled = λ stage. false;
}

-- The same with a classifier that finds a system event.
abbrev run_suppressed : Run
run_suppressed = record run_scored {
  classify = λ reprompt. ok (ClassifierOutput.note_type NoteType.system_event, "m1");
}

-- The same with a scoring pass that does not answer.
abbrev run_failing : Run
run_failing = record run_scored { score_note = λ reprompt type. err model_unavailable }

judge-IsReply_example :
    Ends
      (λ reply s'. IsReply table ascii plain default_config request run_scored reply)
      (λ e s'. Unit)
      (judge table ascii plain default_config request run_scored empty)
judge-IsReply_example = judge-IsReply table ascii plain default_config request run_scored empty

failure_frees_key_example :
    Ends
      (IsJudged table ascii plain default_config request run_failing)
      (FreeOrConfirmed table ascii plain default_config request run_failing)
      (judge table ascii plain default_config request run_failing empty)
failure_frees_key_example =
    failure_frees_key table ascii plain default_config request run_failing empty gate_open refl refl
      refl refl

-- The run with the failing pass does raise.
failing_raises :
    (judge table ascii plain default_config request run_failing empty).0 ≡ err model_unavailable
unfolding judge length_gate reserve_idempotency gather
failing_raises = refl

-- The type of the run's only answer.
viewing_type :
    (type : NoteType) (model : String)
    → run_scored.classify true ≡ ok (ClassifierOutput.note_type type, model)
    → compute_score partly_answered type default_config ≡ ok partly_scored
viewing_type NoteType.viewing model e = partly-computed
viewing_type NoteType.no_contact model e = absurd (cc e)
viewing_type NoteType.callback model e = absurd (cc e)
viewing_type NoteType.discovery model e = absurd (cc e)
viewing_type NoteType.negotiation model e = absurd (cc e)
viewing_type NoteType.won_lost model e = absurd (cc e)
viewing_type NoteType.system_event model e = absurd (cc e)

judge-returns_example :
    Ends
      (IsJudged table ascii plain default_config request run_scored)
      (λ e s'. ⊥)
      (judge table ascii plain default_config request run_scored empty)
judge-returns_example =
    judge-returns table ascii plain default_config request run_scored (λ stage. refl) (λ h. cc h)
      (λ reprompt. ((ClassifierOutput.note_type NoteType.viewing, "m1"), refl))
      (λ reprompt type model e. ((vague_output, "m1"), refl))
      (λ reprompt type model e.
        (partly_answered, "m1", refl, (partly_scored, viewing_type type model e)))
      empty gate_open refl refl

json_differs : (let json : String = "{}" in json) ≢ "1"
json_differs h = cc h

-- What the run with a system event makes.
abbrev system_judgement : Judgement
system_judgement =
    suppressed_judgement plain default_config request not_scorable SuppressedDetail.system_event
      (record empty_analysis {
        analysed_type = some (ClassifierOutput.note_type NoteType.system_event);
      })
      "m1" none none

-- A deployment whose JSON is read back.
abbrev reading_back : Deployment
reading_back = record plain { validate = λ raw. some system_judgement }

abbrev after_first : Memory
after_first = (judge table ascii reading_back default_config request run_suppressed empty).1

first_judged :
    judge table ascii reading_back default_config request run_suppressed empty
    ≡ (ok (judged system_judgement 1), after_first)
unfolding judge length_gate reserve_idempotency suppressed_judgement
first_judged = refl

abbrev run_again : Run
run_again = record run_scored { reserving = trip 40; existing = trip 41 }

replay_lem_example :
    judge table ascii reading_back default_config
      (record request { subject = "bob"; request_id = "r2"; resubmission = true })
      run_again
      after_first
    ≡ (ok (replayed (record system_judgement { request_id = "r2" })), after_first)
replay_lem_example =
    replay_lem table ascii reading_back default_config request run_suppressed run_again "bob" "r2"
      true system_judgement 1 empty after_first gate_open refl refl refl refl (omega arith)
      (omega arith) (omega arith) (omega arith) first_judged refl refl refl refl (omega arith)
      (omega arith) (omega arith) refl json_differs
