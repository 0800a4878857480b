-- ===== src/Pipeline/Judge/Replies.antt =====
-- What a caller gets for a judgement
-- (src/dodeal_ai/units/structured_intelligence/pipeline.py, `_judge`).
use do_deal_ai.Prelude.{
  ℕ, ◌<◌, if◌then◌else◌, ◌≡◌, refl, ◌⊎◌, inl, inr, Bool, true, false, Option, none, some, String,
  arith, Fallible, err, ok, Bool-cases, ◌==◌, ◌&&◌,
}
use do_deal_ai.Schemas.{SuppressedReason, SuppressedDetail, Judgement, PromptWithheld, Suppressed}
use do_deal_ai.TenantConfig.{TenantConfig}
use do_deal_ai.Redis.{Redis, TextKey, idempotency}
use do_deal_ai.State.{reserve_idempotency, take_over_idempotency, read_confirmed_judgement}
use do_deal_ai.Pipeline.Length.{Text, length_gate}
use do_deal_ai.Pipeline.Judge.{
  idempotency_unavailable, Raised, Request, Run, Deployment, Reply, judged, replayed, at_reference,
  at_reserve, at_existing, at_question, pure, was_sent, no_model, empty_analysis,
  suppressed_judgement, and_then,
}
use do_deal_ai.Pipeline.Judge.Shape.{IsWhole, IsSuppressed, stopped_by_length}
use do_deal_ai.Pipeline.Judge.Body.{Confirmed, body-Confirmed}
use do_deal_ai.Pipeline.Judge.Rules.{Ends, Ends-await_at, Ends-and_then}
use do_deal_ai.Pipeline.Judge.Steps.{
  or_release, refer, judge_claimed, after_claim, claim_key, after_reserve, existing_judgement,
  with_stored, repeat_or_take_over, judge_gated, judge_unless, Claim, claimed, duplicate, found,
  Judged, judge,
}

module _ (redis : Redis) (text : Text) (deployment : Deployment) (config : TenantConfig)
    (request : Request) (run : Run) where
  open redis use {Store}

  abbrev the_key : TextKey
  the_key = idempotency request.tenant request.note_id request.fingerprint

  -- Anything, of an exception.
  abbrev Whatever : Raised → Store → Type 0
  Whatever e s = Unit

  -- A reply: a judgement that is whole, with no pass exactly where the length gate stops the note, or
  -- one made earlier for the same note and lead, under this request's id.
  abbrev pub IsReply : Reply → Type 0
  IsReply (judged j passes) =
      IsWhole config request run j passes
      × (((passes ≡ 0)
            × ((stop : SuppressedReason × SuppressedDetail) × (length_gate text config request.note
                  ≡ some stop)
                × IsSuppressed config request run stop.0 stop.1 j))
          ⊎ ((0 < passes) × (length_gate text config request.note ≡ none)))
  IsReply (replayed j) =
      (j.note_id ≡ request.note_id)
      × (j.lead_id ≡ request.lead_id)
      × (j.request_id ≡ request.request_id)

  refer-Ends :
      (j : Judgement) (passes : ℕ) (s : Store)
      → IsReply (judged j passes)
      → Ends
          (λ reply s'. IsReply reply)
          Whatever
          (and_then
            (λ _. pure (judged j passes))
            (refer redis text deployment config request run j s))
  unfolding refer
  refer-Ends j passes s whole = elim (Bool-cases (was_sent j.decision)) [
    | inl e ↦ rw e (
        Ends-await_at (λ reply s'. IsReply reply) Whatever _ run at_reference
          (λ _. pure (judged j passes)) (λ _. tt) (λ _. whole))
    | inr e ↦ rw e whole
  ]

  or_release-Ends :
      (Good : Judged → Store → Type 0) (r : Fallible Raised Judged × Store)
      → Ends Good Whatever r
      → Ends Good Whatever (or_release redis text deployment config request run r)
  unfolding or_release
  or_release-Ends Good (ok j, s) h = h
  or_release-Ends Good (err e, s) h = tt

  judge_claimed-IsReply :
      (s : Store)
      → length_gate text config request.note ≡ none
      → Ends
          (λ reply s'. IsReply reply)
          Whatever
          (judge_claimed redis text deployment config request run s)
  unfolding judge_claimed
  judge_claimed-IsReply s open_gate =
      Ends-and_then (Confirmed redis text deployment config request run the_key s)
        (λ reply s'. IsReply reply) Whatever _ _
        (or_release-Ends (Confirmed redis text deployment config request run the_key s) _
          (body-Confirmed redis text deployment config request run the_key s))
        λ r s' h. refer-Ends r.0 r.1 s' (h.0, inr (h.1, open_gate))

  abbrev IsClaim : Claim → Type 0
  IsClaim claimed = Unit
  IsClaim duplicate = Unit
  IsClaim (found j) = IsReply (replayed j)

  unavailable_or :
      (answer : Option Bool × Store)
      → Ends
          (λ (claim : Claim) (s' : Store). IsClaim claim)
          Whatever
          (
            elim answer.0 [
              | none ↦ err idempotency_unavailable
              | some won ↦ ok (if won then claimed else duplicate)
            ],
            answer.1,
          )
  unavailable_or (none, s) = tt
  unavailable_or (some true, s) = tt
  unavailable_or (some false, s) = tt

  repeat_or_take_over-IsClaim :
      (stored : String) (replay : Option Judgement) (s : Store)
      → Ends
          (λ claim s'. IsClaim claim)
          Whatever
          (repeat_or_take_over redis text deployment config request run stored replay s)
  unfolding repeat_or_take_over
  repeat_or_take_over-IsClaim stored none s = unavailable_or (
      take_over_idempotency redis run.taking_over.link run.taking_over.at request.tenant
        request.note_id request.fingerprint stored deployment.inflight_ttl s)
  repeat_or_take_over-IsClaim stored (some replay) s =
      elim (Bool-cases (replay.note_id == request.note_id && replay.lead_id == request.lead_id)) [
        | inl e ↦ rw e (ground arith, ground arith, refl)
        | inr e ↦ rw e tt
      ]

  with_stored-IsClaim :
      (stored : Option (Option String)) (s : Store)
      → Ends
          (λ claim s'. IsClaim claim)
          Whatever
          (with_stored redis text deployment config request run stored s)
  unfolding with_stored
  with_stored-IsClaim none s = tt
  with_stored-IsClaim (some none) s = tt
  with_stored-IsClaim (some (some stored)) s =
      repeat_or_take_over-IsClaim stored (deployment.validate stored) s

  existing_judgement-IsClaim :
      (s : Store)
      → Ends
          (λ claim s'. IsClaim claim)
          Whatever
          (existing_judgement redis text deployment config request run s)
  unfolding existing_judgement
  existing_judgement-IsClaim s =
      with_stored-IsClaim
        (read_confirmed_judgement redis run.existing.link run.existing.at request.tenant
          request.note_id request.fingerprint s)
        s

  after_reserve-IsClaim :
      (claim : Claim) (s : Store)
      → Ends
          (λ claim s'. IsClaim claim)
          Whatever
          (after_reserve redis text deployment config request run claim s)
  unfolding after_reserve
  after_reserve-IsClaim claimed s = tt
  after_reserve-IsClaim duplicate s =
      Ends-and_then (λ claim s'. IsClaim claim) (λ claim s'. IsClaim claim) Whatever _ _
        (existing_judgement-IsClaim s)
        λ claim s' h.
          Ends-await_at (λ claim s'. IsClaim claim) Whatever s' run at_existing _ (λ _. tt) (λ _. h)
  after_reserve-IsClaim (found j) s =
      Ends-and_then (λ claim s'. IsClaim claim) (λ claim s'. IsClaim claim) Whatever _ _
        (existing_judgement-IsClaim s)
        λ claim s' h.
          Ends-await_at (λ claim s'. IsClaim claim) Whatever s' run at_existing _ (λ _. tt) (λ _. h)

  after_claim-IsReply :
      (claim : Claim) (s : Store)
      → IsClaim claim
      → length_gate text config request.note ≡ none
      → Ends
          (λ reply s'. IsReply reply)
          Whatever
          (after_claim redis text deployment config request run claim s)
  unfolding after_claim
  after_claim-IsReply claimed s h open_gate = judge_claimed-IsReply s open_gate
  after_claim-IsReply duplicate s h open_gate = tt
  after_claim-IsReply (found j) s h open_gate = h

  claim_key-IsClaim :
      (s : Store)
      → Ends
          (λ claim s'. IsClaim claim)
          Whatever
          (claim_key redis text deployment config request run s)
  unfolding claim_key
  claim_key-IsClaim s =
      Ends-and_then (λ claim s'. IsClaim claim) (λ claim s'. IsClaim claim) Whatever _ _
        (unavailable_or (
          reserve_idempotency redis run.reserving.link run.reserving.at request.tenant
            request.note_id request.fingerprint deployment.inflight_ttl s))
        λ claim s' h.
          Ends-await_at (λ claim s'. IsClaim claim) Whatever s' run at_reserve _ (λ _. tt)
            (λ _. after_reserve-IsClaim claim s')

  gated_lem :
      (reason : SuppressedReason) (detail : SuppressedDetail) (prompt : Option String)
      (withheld : Option PromptWithheld)
      → length_gate text config request.note ≡ some (reason, detail)
      → IsReply (
          judged
            (suppressed_judgement deployment config request reason detail empty_analysis no_model
              prompt withheld)
            0)
  unfolding suppressed_judgement
  gated_lem reason detail prompt withheld stopped =
      let block : Suppressed = record {
        reason = reason;
        detail_code = detail;
        clarification_prompt = prompt;
        prompt_withheld = withheld;
      } in
      (
        stopped_by_length reason detail (refl, refl, refl, refl)
            (refl, refl, refl, (block, refl, refl, refl)) refl,
        inl (refl, ((reason, detail), stopped, (refl, refl, refl, (block, refl, refl, refl)))),
      )

  judge_gated-IsReply :
      (reason : SuppressedReason) (detail : SuppressedDetail) (s : Store)
      → length_gate text config request.note ≡ some (reason, detail)
      → Ends
          (λ reply s'. IsReply reply)
          Whatever
          (judge_gated redis text deployment config request run reason detail s)
  unfolding judge_gated
  judge_gated-IsReply reason detail s stopped =
      Ends-await_at (λ reply s'. IsReply reply) Whatever _ run at_question _ (λ _. tt)
        λ _. gated_lem reason detail _ _ stopped

  judge_unless-IsReply :
      (stop : Option (SuppressedReason × SuppressedDetail)) (s : Store)
      → length_gate text config request.note ≡ stop
      → Ends
          (λ reply s'. IsReply reply)
          Whatever
          (judge_unless redis text deployment config request run stop s)
  unfolding judge_unless
  judge_unless-IsReply none s e =
      Ends-and_then (λ claim s'. IsClaim claim) (λ reply s'. IsReply reply) Whatever _ _
        (claim_key-IsClaim s) λ claim s' h. after_claim-IsReply claim s' h e
  judge_unless-IsReply (some (reason, detail)) s e = judge_gated-IsReply reason detail s e

  -- Every reply is well formed. A judgement either has no pass behind it, where the length gate stops
  -- the note: it is suppressed with the gate's reason and detail. Or it has one, and is suppressed as
  -- the classifier's answer says. Or it has three, and holds the score that the arithmetic makes of
  -- the scoring pass's answers, the decision and the analysis of the vagueness pass, under the
  -- enforcement block of its action and the scoring model's stamp. A replay is for the same note and
  -- lead. Both carry this request's id.
  pub judge-IsReply :
      (s : Store)
      → Ends (λ reply s'. IsReply reply) Whatever (judge redis text deployment config request run s)
  unfolding judge
  judge-IsReply s = judge_unless-IsReply (length_gate text config request.note) s refl
