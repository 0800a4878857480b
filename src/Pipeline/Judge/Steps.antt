-- ===== src/Pipeline/Judge/Steps.antt =====
-- The steps of one judgement in their order
-- (src/dodeal_ai/units/structured_intelligence/pipeline.py, `_judge` and `_existing_judgement`).
--
-- Between two calls of the store nothing else runs here: a run is one request on its own.
use do_deal_ai.Prelude.{
  ℕ, Bool, ◌&&◌, ◌==◌, Option, none, some, String, if◌then◌else◌, Fallible, err, ok,
}
use do_deal_ai.Schemas.{
  NoteType, ClassifierOutput, not_scorable, SuppressedReason, SuppressedDetail, Judgement,
  NoteAnalysis,
}
use do_deal_ai.TenantConfig.{TenantConfig}
use do_deal_ai.Redis.{Redis}
use do_deal_ai.State.{
  reserve_idempotency, release_idempotency, confirm_idempotency, read_confirmed_judgement,
  take_over_idempotency, read_attempts, write_attempt_fingerprint,
}
use do_deal_ai.Pipeline.{decision_on}
use do_deal_ai.Pipeline.Length.{Text, length_gate, fixed_clarification_prompt, fixed_question}
use do_deal_ai.Pipeline.Judge.{
  Raised, idempotency_unavailable, duplicate_request, assertion_failed, at_question, at_reserve,
  at_existing, at_attempts, at_preflight, at_classify, at_vague_and_score, at_decision, at_confirm,
  at_reference, Deployment, Request, Run, Reply, judged, replayed, no_model, suppression_for, Body,
  ◌>>=◌, ◌>>◌, pure, lift, reading, writing, await_at, gather, may_reprompt, scored, empty_analysis,
  analysis_of, suppressed_judgement, scored_judgement, was_sent,
}

-- What a request that asked for the key has: the key, the judgement it repeats, or neither.
pub data Claim : Type 0 where
  claimed duplicate : Claim
  found : Judgement → Claim

abbrev or_unavailable : Option Bool → Fallible Raised Claim
or_unavailable none = err idempotency_unavailable
or_unavailable (some won) = ok (if won then claimed else duplicate)

-- A judgement with the number of passes behind it.
abbrev pub Judged : Type 0
Judged = Judgement × ℕ

-- `analysis=NoteAnalysis(note_type=...)`.
abbrev pub classified : ClassifierOutput → NoteAnalysis
classified type = record empty_analysis { analysed_type = some type }

module _ (redis : Redis) (text : Text) (deployment : Deployment) (config : TenantConfig)
    (request : Request) (run : Run) where
  open redis use {Store}
  open request use {tenant, subject, note_id, fingerprint}

  -- The vagueness and scoring passes, the arithmetic and the decision.
  unfoldable pub score_and_decide : Bool → ℕ → NoteType → Body Store Judged
  score_and_decide reprompt attempts type = do
    await_at run at_vague_and_score
    passes ←
        lift (
          gather run.score_first (run.detect_vagueness reprompt type)
            (run.score_note reprompt type))
    let analysis = analysis_of type passes.0.0
    score ← lift (scored passes.1.0 type config)
    decision ← λ (s : Store).
        let (d, s') =
          decision_on redis run.deciding.link run.deciding.at tenant note_id subject attempts score
            analysis config request.resubmission run.first_asked.link s in
        (ok d, s')
    await_at run at_decision
    pure (scored_judgement deployment config request analysis score decision passes.1.1, 3)

  -- What follows the classifier's answer.
  unfoldable pub after_classify :
      Bool → ℕ → ClassifierOutput → String → Option SuppressedDetail → Body Store Judged
  unfolding score_and_decide
  after_classify reprompt attempts answer model (some detail) = pure (
    suppressed_judgement deployment config request not_scorable detail (classified answer) model
        none none,
    1,
  )
  after_classify reprompt attempts (ClassifierOutput.note_type type) model none =
      score_and_decide reprompt attempts type
  after_classify reprompt attempts _ model none = lift (err assertion_failed)

  -- Everything inside the `try`.
  unfoldable pub body : Body Store Judged
  unfolding after_classify may_reprompt suppression_for
  body = do
    attempts ←
        reading (read_attempts redis run.attempts_read.link run.attempts_read.at tenant note_id)
    await_at run at_attempts
    await_at run at_preflight
    reprompt ← lift (may_reprompt run.preflight)
    await_at run at_classify
    answer ← lift (run.classify reprompt)
    result ← after_classify reprompt attempts answer.0 answer.1 (suppression_for answer.0)
    writing (
        confirm_idempotency redis run.confirming.link run.confirming.at tenant note_id fingerprint
          (deployment.dump result.0) config.idempotency_ttl_seconds)
    await_at run at_confirm
    pure result

  -- `except BaseException`: the key is released and the exception goes on.
  unfoldable pub or_release : Fallible Raised Judged × Store → Fallible Raised Judged × Store
  or_release (ok result, s) = (ok result, s)
  or_release (err e, s) =
      (err e, release_idempotency redis run.releasing.link tenant note_id fingerprint s)

  -- Step 10.
  unfoldable pub refer : Judgement → Body Store (Unit {0})
  refer judgement =
      if was_sent judgement.decision
      then (do
        writing (
            write_attempt_fingerprint redis run.referring.link run.referring.at tenant note_id
              fingerprint config.attempt_ttl_seconds)
        await_at run at_reference)
      else pure tt

  -- `_existing_judgement`, from the stored value on.
  unfoldable pub repeat_or_take_over : String → Option Judgement → Body Store Claim
  repeat_or_take_over stored none s =
      let (won, s') =
        take_over_idempotency redis run.taking_over.link run.taking_over.at tenant note_id
          fingerprint stored deployment.inflight_ttl s in
      (or_unavailable won, s')
  repeat_or_take_over stored (some replay) s = (
    ok (
        if replay.note_id == note_id && replay.lead_id == request.lead_id
        then found (record replay { request_id = request.request_id })
        else duplicate),
    s,
  )

  unfoldable pub with_stored : Option (Option String) → Body Store Claim
  unfolding repeat_or_take_over
  with_stored none s = (err idempotency_unavailable, s)
  with_stored (some none) s = (ok duplicate, s)
  with_stored (some (some stored)) s = repeat_or_take_over stored (deployment.validate stored) s

  unfoldable pub existing_judgement : Body Store Claim
  unfolding with_stored
  existing_judgement s =
      with_stored
        (read_confirmed_judgement redis run.existing.link run.existing.at tenant note_id fingerprint
          s)
        s

  unfoldable pub after_reserve : Claim → Body Store Claim
  unfolding existing_judgement
  after_reserve claimed = pure claimed
  after_reserve _ = do claim ← existing_judgement; await_at run at_existing; pure claim

  unfoldable pub claim_key : Body Store Claim
  unfolding after_reserve
  claim_key = do
    answer ← λ (s : Store).
        let (won, s') =
          reserve_idempotency redis run.reserving.link run.reserving.at tenant note_id fingerprint
            deployment.inflight_ttl s in
        (or_unavailable won, s')
    await_at run at_reserve
    after_reserve answer

  unfoldable pub judge_claimed : Body Store Reply
  unfolding body or_release refer
  judge_claimed = do
    result ← λ (s : Store). or_release (body s)
    refer result.0
    pure (judged result.0 result.1)

  unfoldable pub after_claim : Claim → Body Store Reply
  unfolding judge_claimed
  after_claim duplicate = lift (err duplicate_request)
  after_claim (found replay) = pure (replayed replay)
  after_claim claimed = judge_claimed

  -- A note that the length gate stops: no key, no pass.
  unfoldable pub judge_gated : SuppressedReason → SuppressedDetail → Body Store Reply
  judge_gated reason detail = do
    asked ← λ (s : Store).
        let (question, s') =
          fixed_question redis config detail
            (fixed_clarification_prompt text deployment.questions request.note) request.resubmission
            run.asking_reads run.asking_takes tenant note_id subject s in
        (ok question, s')
    await_at run at_question
    pure (
        judged
          (suppressed_judgement deployment config request reason detail empty_analysis no_model
            asked.0 asked.1)
          0)

  unfoldable pub judge_unless : Option (SuppressedReason × SuppressedDetail) → Body Store Reply
  unfolding claim_key after_claim judge_gated
  judge_unless (some (reason, detail)) = judge_gated reason detail
  judge_unless none = claim_key >>= after_claim

  unfoldable pub judge : Body Store Reply
  unfolding judge_unless
  judge = judge_unless (length_gate text config request.note)
