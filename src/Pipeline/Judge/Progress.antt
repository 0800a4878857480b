-- ===== src/Pipeline/Judge/Progress.antt =====
-- A request that nothing stops is judged
-- (src/dodeal_ai/units/structured_intelligence/pipeline.py, `_judge`).
use do_deal_ai.Prelude.{
  ℕ, ◌≡◌, ◌≢◌, refl, Bool, true, false, none, some, Fallible, err, ok, Bool-cases, inl, inr, Option,
  String,
}
use do_deal_ai.Schemas.{
  Judgement, NoteType, ClassifierOutput, unclassifiable, VagueOutput, Checks, NoteScore,
  SuppressedDetail,
}
use do_deal_ai.TenantConfig.{TenantConfig}
use do_deal_ai.Scoring.{compute_score}
use do_deal_ai.Redis.{Redis}
use do_deal_ai.Limiter.{Preflight, token_budget_exceeded, degraded, full}
use do_deal_ai.Redis.Links.{answered}
use do_deal_ai.State.{reserve_idempotency}
use do_deal_ai.Pipeline.Length.{Text, length_gate}
use do_deal_ai.Pipeline.Judge.{
  Raised, Stage, Request, Run, Deployment, judged, at_reserve, at_attempts, at_preflight,
  at_classify, at_vague_and_score, at_decision, at_confirm, at_reference, pure, was_sent, and_then,
  may_reprompt, suppression_for, gather, scored,
}
use do_deal_ai.Pipeline.Judge.Rules.{Ends, Ends-and_then, Ends-await_at, Ends-lift}
use do_deal_ai.Pipeline.Judge.Failure.{the_key, IsJudged, claim_key-free}
use do_deal_ai.Pipeline.Judge.Steps.{
  Judged, or_release, refer, body, judge_claimed, judge_unless, judge, after_claim, after_classify,
  score_and_decide,
}

-- A step that returns.
abbrev pub Returns : {A : Type 0} → Fallible Raised A → Type 0
Returns {A} r = (a : A) × (r ≡ ok a)

-- Short of the budget the pre-flight does not stop the judgement, near it either.
within_budget :
    (p : Preflight) → p ≢ token_budget_exceeded → (e : Raised) → may_reprompt p ≡ err e → ⊥
unfolding may_reprompt
within_budget token_budget_exceeded over e h = over refl
within_budget degraded over e h = cc h
within_budget full over e h = cc h

module _ (redis : Redis) (text : Text) (deployment : Deployment) (config : TenantConfig)
    (request : Request) (run : Run) where
  open redis use {Store, text_at}

  abbrev Never : Raised → Store → Type 0
  Never e s = ⊥

  abbrev Anything : {A : Type 0} → A → Store → Type 0
  Anything a s = Unit

  module _ (going : (stage : Stage) → run.cancelled stage ≡ false)
      (budget : run.preflight ≢ token_budget_exceeded)
      (classifies : (reprompt : Bool) → Returns (run.classify reprompt))
      (detects : (reprompt : Bool) (type : NoteType) (model : String)
        → run.classify reprompt ≡ ok (ClassifierOutput.note_type type, model)
        → Returns (run.detect_vagueness reprompt type))
      (scores : (reprompt : Bool) (type : NoteType) (model : String)
        → run.classify reprompt ≡ ok (ClassifierOutput.note_type type, model)
        → (checks : Checks) × (by : String) × (run.score_note reprompt type ≡ ok (checks, by))
          × ((score : NoteScore) × (compute_score checks type config ≡ ok score))) where
    not_cancelled : (stage : Stage) → run.cancelled stage ≡ true → ⊥
    not_cancelled stage h = let e = going stage in cc

    gather-returns :
        (reprompt : Bool) (type : NoteType) (model : String)
        → run.classify reprompt ≡ ok (ClassifierOutput.note_type type, model)
        → (passes : (VagueOutput × String) × (Checks × String)) × (gather run.score_first
              (run.detect_vagueness reprompt type)
              (run.score_note reprompt type)
            ≡ ok passes)
          × ((score : NoteScore) × (scored passes.1.0 type config ≡ ok score))
    unfolding gather scored
    gather-returns reprompt type model asked =
        let (found, detected) = detects reprompt type model asked in
        let (checks, by, answers, (score, arithmetic)) = scores reprompt type model asked in
        ((found, (checks, by)), rw (detected, answers) refl, (score, rw (arithmetic, scored) refl))

    score_and_decide-returns :
        (reprompt : Bool) (attempts : ℕ) (type : NoteType) (model : String) (s : Store)
        → run.classify reprompt ≡ ok (ClassifierOutput.note_type type, model)
        → Ends Anything Never
            (score_and_decide redis text deployment config request run reprompt attempts type s)
    unfolding score_and_decide
    score_and_decide-returns reprompt attempts type model s asked =
        let (passes, both, (score, arithmetic)) = gather-returns reprompt type model asked in
        Ends-await_at Anything Never s run at_vague_and_score _ (not_cancelled at_vague_and_score)
          λ _. rw both (
            rw arithmetic (
              Ends-await_at Anything Never _ run at_decision _ (not_cancelled at_decision) λ _. tt))

    after_classify-returns :
        (reprompt : Bool) (attempts : ℕ) (type : ClassifierOutput) (model : String)
        (detail : Option SuppressedDetail) (s : Store)
        → run.classify reprompt ≡ ok (type, model)
        → suppression_for type ≡ detail
        → Ends Anything Never (
            after_classify redis text deployment config request run reprompt attempts type model
              detail s)
    unfolding after_classify suppression_for
    after_classify-returns reprompt attempts type model (some detail) s asked h = tt
    after_classify-returns reprompt attempts (ClassifierOutput.note_type type) model none s asked
          h =
        score_and_decide-returns reprompt attempts type model s asked
    after_classify-returns reprompt attempts unclassifiable model none s asked h = absurd (cc h)

    body-returns :
        (s : Store) → Ends Anything Never (body redis text deployment config request run s)
    unfolding body
    body-returns s =
        Ends-await_at Anything Never s run at_attempts _ (not_cancelled at_attempts) λ _.
          Ends-await_at Anything Never s run at_preflight _ (not_cancelled at_preflight) λ _.
            Ends-lift Anything Never s (may_reprompt run.preflight) _
              (within_budget run.preflight budget)
              λ reprompt _.
                Ends-await_at Anything Never s run at_classify _ (not_cancelled at_classify) λ _.
                  Ends-lift Anything Never s (run.classify reprompt) _
                    (λ e h. let b = (classifies reprompt).1 in cc)
                    λ answer asked.
                      Ends-and_then Anything Anything Never _ _
                        (after_classify-returns reprompt _ answer.0 answer.1
                          (suppression_for answer.0) s asked refl)
                        λ r s2 _.
                          Ends-await_at Anything Never _ run at_confirm _ (not_cancelled at_confirm)
                            (λ _. tt)

    or_release-returns :
        (r : Fallible Raised Judged × Store)
        → Ends Anything Never r
        → Ends Anything Never (or_release redis text deployment config request run r)
    unfolding or_release
    or_release-returns (ok r, s) h = tt
    or_release-returns (err e, s) h = h

    refer-returns :
        (j : Judgement) (passes : ℕ) (s : Store)
        → Ends (IsJudged redis text deployment config request run) Never (
            and_then
              (λ _. pure (judged j passes))
              (refer redis text deployment config request run j s))
    unfolding refer
    refer-returns j passes s = elim (Bool-cases (was_sent j.decision)) [
      | inl sent ↦ rw sent (
          Ends-await_at (IsJudged redis text deployment config request run) Never _ run at_reference
            (λ _. pure (judged j passes)) (not_cancelled at_reference) (λ _. (j, passes, refl)))
      | inr silent ↦ rw silent (j, passes, refl)
    ]

    judge_claimed-returns :
        (s : Store)
        → Ends
            (IsJudged redis text deployment config request run)
            Never
            (judge_claimed redis text deployment config request run s)
    unfolding judge_claimed
    judge_claimed-returns s =
        Ends-and_then Anything (IsJudged redis text deployment config request run) Never _ _
          (or_release-returns _ (body-returns s)) λ r s' _. refer-returns r.0 r.1 s'

    -- A request that nothing stops is judged: where the note passes the length gate, its key is free
    -- and the reservation is answered, the token budget is not used up, no step is cancelled and every pass that
    -- is asked answers, the scoring pass with something that the arithmetic can score, it ends with a
    -- judgement and never with an exception, whatever becomes of the other calls of the store.
    pub judge-returns :
        (s : Store)
        → length_gate text config request.note ≡ none
        → text_at run.reserving.at (the_key redis text deployment config request run) s ≡ none
        → run.reserving.link ≡ answered
        → Ends
            (IsJudged redis text deployment config request run)
            Never
            (judge redis text deployment config request run s)
    unfolding judge judge_unless after_claim
    judge-returns s gate free link =
        rw
          (
            gate,
            claim_key-free redis text deployment config request run s free link (going at_reserve),
          )
          (judge_claimed-returns
            (reserve_idempotency redis answered run.reserving.at request.tenant request.note_id
              request.fingerprint deployment.inflight_ttl s).1)
