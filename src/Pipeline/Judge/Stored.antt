-- ===== src/Pipeline/Judge/Stored.antt =====
-- What a judgement leaves in the store
-- (src/dodeal_ai/units/structured_intelligence/pipeline.py, `_judge` and `_existing_judgement`).
use do_deal_ai.Prelude.{
  ℕ, ◌+◌, ◌≤◌, ◌<◌, ◌≡◌, ◌∙◌, inl, inr, false, none, some, String, arith, Fallible, err, ok,
  Bool-cases,
}
use do_deal_ai.Schemas.{Judgement}
use do_deal_ai.TenantConfig.{TenantConfig}
use do_deal_ai.Redis.{Redis, TextKey, Entry, idempotency}
use do_deal_ai.Redis.Links.{answered}
use do_deal_ai.State.{reserved, reserve_idempotency, confirm_idempotency}
use do_deal_ai.State.Texts.{SameText, write_attempt_fingerprint-SameText}
use do_deal_ai.State.Reservation.{written}
use do_deal_ai.State.Reservation.Life as Life
use do_deal_ai.Pipeline.Length.{Text, length_gate}
use do_deal_ai.Pipeline.Judge.{
  Raised, Request, Run, Deployment, Reply, judged, replayed, at_reserve, at_reference, pure,
  was_sent, and_then,
}
use do_deal_ai.Pipeline.Judge.Rules.{Ends, Ends-and_then, Ends-await_at}
use do_deal_ai.Pipeline.Judge.Shape.{
  IsWhole, IsForRequest, stopped_by_length, stopped_by_classifier, scored_by_all,
}
use do_deal_ai.Pipeline.Judge.Body.{Confirmed, body-Confirmed}
use do_deal_ai.Pipeline.Judge.Failure.{claim_key-free}
use do_deal_ai.Pipeline.Judge.Steps.{
  Judged, or_release, refer, judge_claimed, judge_unless, judge, after_claim,
}

module _ (redis : Redis) (text : Text) (deployment : Deployment) (config : TenantConfig)
    (request : Request) (run : Run) where
  open redis use {Store, text_at, set_ex}

  abbrev pub the_key : TextKey
  the_key = idempotency request.tenant request.note_id request.fingerprint

  abbrev kept_until : ℕ
  kept_until = run.confirming.at + config.idempotency_ttl_seconds

  -- The key holds the judgement from the last call of the run to the end of its lifetime.
  abbrev Stored : Judgement → Store → Type 0
  Stored j s =
      (t : ℕ)
      → run.referring.at ≤ t
      → t < kept_until
      → text_at t the_key s ≡ some (record { value = deployment.dump j; expires = some kept_until })

  abbrev pub StoredReply : Reply → Store → Type 0
  StoredReply (judged j passes) s = IsForRequest config request run j × Stored j s
  StoredReply (replayed j) s = Unit

  abbrev Whatever : Raised → Store → Type 0
  Whatever e s = Unit

  for_request :
      (j : Judgement) (passes : ℕ)
      → IsWhole config request run j passes
      → IsForRequest config request run j
  for_request j passes (stopped_by_length reason detail mine block model) = mine
  for_request j passes (stopped_by_classifier reprompt detail type mine block c e a) = mine
  for_request j passes (scored_by_all mine scored) = mine

  abbrev StoredJudged : Judged → Store → Type 0
  StoredJudged r s = IsForRequest config request run r.0 × Stored r.0 s

  refer-Stored :
      (j : Judgement) (passes : ℕ) (s : Store)
      → StoredJudged (j, passes) s
      → Ends StoredReply Whatever (
          and_then
            (λ _. pure (judged j passes))
            (refer redis text deployment config request run j s))
  unfolding refer
  refer-Stored j passes s (mine, kept) = elim (Bool-cases (was_sent j.decision)) [
    | inl sent ↦ rw sent (
        Ends-await_at StoredReply Whatever _ run at_reference (λ _. pure (judged j passes))
          (λ e. tt)
          (λ _. (
            mine,
            λ t after before.
                write_attempt_fingerprint-SameText redis run.referring.at request.tenant
                  request.note_id request.fingerprint run.referring.link request.fingerprint
                  config.attempt_ttl_seconds s t after
                ∙ kept t after before,
          )))
    | inr silent ↦ rw silent (mine, kept)
  ]

  module _ (s : Store) (free : text_at run.reserving.at the_key s ≡ none)
      (reserve_answered : run.reserving.link ≡ answered)
      (not_cancelled : run.cancelled at_reserve ≡ false)
      (confirm_answered : run.confirming.link ≡ answered)
      (reserve_first : run.reserving.at ≤ run.deciding.at)
      (decide_next : run.deciding.at ≤ run.confirming.at)
      (confirm_in_time : run.confirming.at < run.reserving.at + deployment.inflight_ttl)
      (refer_last : run.confirming.at ≤ run.referring.at) where
    abbrev after_reserving : Store
    after_reserving =
        (reserve_idempotency redis answered run.reserving.at request.tenant request.note_id
          request.fingerprint deployment.inflight_ttl s).1

    reservation : Entry String
    reservation = record {
      value = reserved;
      expires = some (run.reserving.at + deployment.inflight_ttl);
    }

    still_reserved : text_at run.confirming.at the_key after_reserving ≡ some reservation
    unfolding reservation
    still_reserved =
        rw
          (Life.reserved_store redis request.tenant request.note_id request.fingerprint
            run.reserving.at deployment.inflight_ttl s free)
          (written redis request.tenant request.note_id request.fingerprint run.reserving.at
            run.confirming.at reserved deployment.inflight_ttl s (omega arith) confirm_in_time)

    confirmed_store :
        (r : Judged) (s2 : Store)
        → SameText redis run.deciding.at the_key after_reserving s2
        → confirm_idempotency redis answered run.confirming.at request.tenant request.note_id
            request.fingerprint
            (deployment.dump r.0)
            config.idempotency_ttl_seconds
            s2
          ≡ set_ex run.confirming.at the_key (deployment.dump r.0) config.idempotency_ttl_seconds s2
    confirmed_store r s2 untouched =
        Life.confirm-some redis request.tenant request.note_id request.fingerprint run.confirming.at
          (deployment.dump r.0) config.idempotency_ttl_seconds s2 reservation
          (untouched run.confirming.at decide_next ∙ still_reserved)

    Confirmed-Stored :
        (r : Judged) (s' : Store)
        → Confirmed redis text deployment config request run the_key after_reserving r s'
        → StoredJudged r s'
    Confirmed-Stored r s' (whole, paid, (s2, untouched, e)) = (
      for_request r.0 r.1 whole,
      λ t after before.
          rw (e, confirm_answered, confirmed_store r s2 untouched)
            (written redis request.tenant request.note_id request.fingerprint run.confirming.at t
              (deployment.dump r.0) config.idempotency_ttl_seconds s2 (omega arith) before),
    )

    or_release-Stored :
        (r : Fallible Raised Judged × Store)
        → Ends
            (Confirmed redis text deployment config request run the_key after_reserving)
            Whatever
            r
        → Ends StoredJudged Whatever (or_release redis text deployment config request run r)
    unfolding or_release
    or_release-Stored (ok r, s') h = Confirmed-Stored r s' h
    or_release-Stored (err e, s') h = tt

    judge_claimed-Stored :
        Ends StoredReply Whatever
          (judge_claimed redis text deployment config request run after_reserving)
    unfolding judge_claimed
    judge_claimed-Stored =
        Ends-and_then StoredJudged StoredReply Whatever _ _
          (or_release-Stored _
            (body-Confirmed redis text deployment config request run the_key after_reserving))
          λ r s' h. refer-Stored r.0 r.1 s' h

    pub judge-Stored :
        length_gate text config request.note ≡ none
        → Ends StoredReply Whatever (judge redis text deployment config request run s)
    unfolding judge judge_unless after_claim
    judge-Stored open_gate =
        rw
          (
            open_gate,
            claim_key-free redis text deployment config request run s free reserve_answered
                not_cancelled,
          )
          judge_claimed-Stored
