-- ===== src/Pipeline/Judge/Failure.antt =====
-- What an exception leaves of the reservation
-- (src/dodeal_ai/units/structured_intelligence/pipeline.py, `_judge`).
use do_deal_ai.Prelude.{
  ℕ, ◌≡◌, refl, ◌⊎◌, inl, inr, true, false, none, Fallible, err, ok, Bool-cases,
}
use do_deal_ai.Schemas.{Judgement}
use do_deal_ai.TenantConfig.{TenantConfig}
use do_deal_ai.Redis.{Redis, TextKey, idempotency}
use do_deal_ai.Redis.Links.{answered}
use do_deal_ai.State.{reserve_idempotency}
use do_deal_ai.State.Reservation.Life as Life
use do_deal_ai.Pipeline.Length.{Text, length_gate}
use do_deal_ai.Pipeline.Judge.{
  Raised, cancellation, Request, Run, Deployment, Reply, judged, at_reserve, at_reference, pure,
  was_sent, and_then,
}
use do_deal_ai.Pipeline.Judge.Rules.{Ends, Ends-and_then, Ends-await_at}
use do_deal_ai.Pipeline.Judge.Steps.{
  Judged, claimed, or_release, refer, body, judge_claimed, claim_key, judge_unless, judge,
  after_claim, after_reserve,
}

module _ (redis : Redis) (text : Text) (deployment : Deployment) (config : TenantConfig)
    (request : Request) (run : Run) where
  open redis use {Store, text_at}

  abbrev pub the_key : TextKey
  the_key = idempotency request.tenant request.note_id request.fingerprint

  abbrev pub IsJudged : Reply → Store → Type 0
  IsJudged reply s = (j : Judgement) × (passes : ℕ) × (reply ≡ judged j passes)

  -- The key is free, at every instant.
  abbrev pub IsFree : Store → Type 0
  IsFree s = (t : ℕ) → text_at t the_key s ≡ none

  -- The key is free; or the judgement was confirmed, and the request was cancelled while it wrote the
  -- reference.
  abbrev pub FreeOrConfirmed : Raised → Store → Type 0
  FreeOrConfirmed e s = IsFree s ⊎ ((e ≡ cancellation) × (run.cancelled at_reference ≡ true))

  -- A request that finds the key free has it.
  pub claim_key-free :
      (s : Store)
      → text_at run.reserving.at the_key s ≡ none
      → run.reserving.link ≡ answered
      → run.cancelled at_reserve ≡ false
      → claim_key redis text deployment config request run s ≡ (
        ok claimed,
        (reserve_idempotency redis answered run.reserving.at request.tenant request.note_id
            request.fingerprint deployment.inflight_ttl s).1,
      )
  unfolding claim_key after_reserve
  claim_key-free s free link going =
      let won =
        Life.claimed redis request.tenant request.note_id request.fingerprint run.reserving.at
          deployment.inflight_ttl s free in
      rw (link, won, going) refl

  or_release-IsFree :
      (r : Fallible Raised Judged × Store)
      → run.releasing.link ≡ answered
      → Ends
          (λ result s'. Unit)
          FreeOrConfirmed
          (or_release redis text deployment config request run r)
  unfolding or_release
  or_release-IsFree (ok result, s) link = tt
  or_release-IsFree (err e, s) link =
      inl
        (λ t. rw link (Life.released redis request.tenant request.note_id request.fingerprint t s))

  refer-Ends :
      (j : Judgement) (passes : ℕ) (s : Store)
      → Ends IsJudged FreeOrConfirmed (
          and_then
            (λ _. pure (judged j passes))
            (refer redis text deployment config request run j s))
  unfolding refer
  refer-Ends j passes s = elim (Bool-cases (was_sent j.decision)) [
    | inl sent ↦ rw sent (
        Ends-await_at IsJudged FreeOrConfirmed _ run at_reference (λ _. pure (judged j passes))
          (λ e. inr (refl, e)) (λ _. (j, passes, refl)))
    | inr silent ↦ rw silent (j, passes, refl)
  ]

  judge_claimed-Ends :
      (s : Store)
      → run.releasing.link ≡ answered
      → Ends IsJudged FreeOrConfirmed (judge_claimed redis text deployment config request run s)
  unfolding judge_claimed
  judge_claimed-Ends s link =
      Ends-and_then (λ result s'. Unit) IsJudged FreeOrConfirmed _ _
        (or_release-IsFree (body redis text deployment config request run s) link)
        λ result s' _. refer-Ends result.0 result.1 s'

  -- A request that passes the length gate and finds the key free either answers with a judgement of its
  -- own, or raises and leaves the key free at every instant, so that a retry is judged anew: the one
  -- exception is a cancellation after the judgement was confirmed. The calls of the reservation and of
  -- the release are answered, and the request is not cancelled while it reserves; every other call and
  -- pass may fail, and the cancellation may come at any other step.
  pub failure_frees_key :
      (s : Store)
      → length_gate text config request.note ≡ none
      → text_at run.reserving.at the_key s ≡ none
      → run.reserving.link ≡ answered
      → run.cancelled at_reserve ≡ false
      → run.releasing.link ≡ answered
      → Ends IsJudged FreeOrConfirmed (judge redis text deployment config request run s)
  unfolding judge judge_unless after_claim
  failure_frees_key s open_gate free link going release =
      rw (open_gate, claim_key-free s free link going)
        (judge_claimed-Ends
          (reserve_idempotency redis answered run.reserving.at request.tenant request.note_id
            request.fingerprint deployment.inflight_ttl s).1
          release)
