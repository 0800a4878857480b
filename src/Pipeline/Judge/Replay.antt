-- ===== src/Pipeline/Judge/Replay.antt =====
-- A repeated request gets the judgement that was made
-- (src/dodeal_ai/units/structured_intelligence/pipeline.py, `_judge` and `_existing_judgement`).
use do_deal_ai.Prelude.{
  ℕ, ◌+◌, ◌≤◌, ◌<◌, ◌≡◌, ◌≢◌, refl, Bool, true, false, Option, none, some, String, arith, Fallible,
  ok, ◌==◌, ◌&&◌,
}
use mathlib.Core.Path.{subst}
use do_deal_ai.Schemas.{Judgement}
use do_deal_ai.TenantConfig.{TenantConfig}
use do_deal_ai.Redis.{Redis, TextKey, Entry}
use do_deal_ai.Redis.Links.{answered}
use do_deal_ai.State.{reserved, reserve_idempotency, read_confirmed_judgement}
use do_deal_ai.State.Reservation.Life as Life
use do_deal_ai.Pipeline.Length.{Text, length_gate}
use do_deal_ai.Pipeline.Judge.{
  Raised, Request, Run, Deployment, Reply, judged, replayed, at_reserve, at_existing,
}
use do_deal_ai.Pipeline.Judge.Rules.{Ends}
use do_deal_ai.Pipeline.Judge.Steps.{
  found, claim_key, judge_unless, judge, after_claim, after_reserve, existing_judgement,
  with_stored, repeat_or_take_over,
}
use do_deal_ai.Pipeline.Judge.Stored.{the_key, judge-Stored}

-- A request that finds the judgement stored.
module _ (redis : Redis) (text : Text) (deployment : Deployment) (config : TenantConfig)
    (request : Request) (run : Run) where
  open redis use {Store, text_at}

  abbrev again : TextKey
  again = the_key redis text deployment config request run

  reserve-held :
      (now ttl : ℕ) (s : Store) (x : Entry String)
      → text_at now again s ≡ some x
      → reserve_idempotency redis answered now request.tenant request.note_id request.fingerprint
          ttl s
        ≡ (some false, s)
  unfolding reserve_idempotency
  reserve-held now ttl s x e = rw (redis.set_nx_lem now again reserved ttl s, e) refl

  module _ (s : Store) (j : Judgement) (t2 : Option ℕ)
      (valid : deployment.validate (deployment.dump j) ≡ some j)
      (differs : deployment.dump j ≢ reserved) (same_note : j.note_id ≡ request.note_id)
      (same_lead : j.lead_id ≡ request.lead_id) (existing_answered : run.existing.link ≡ answered)
      (held : text_at run.existing.at again s
        ≡ some (record { value = deployment.dump j; expires = t2 })) where
    abbrev the_replay : Judgement
    the_replay = record j { request_id = request.request_id }

    for_same_note : (j.note_id == request.note_id && j.lead_id == request.lead_id) ≡ true
    for_same_note = ground arith

    read_found :
        read_confirmed_judgement redis run.existing.link run.existing.at request.tenant
          request.note_id request.fingerprint s
        ≡ some (some (deployment.dump j))
    read_found = rw existing_answered (
        Life.read_written redis request.tenant request.note_id request.fingerprint run.existing.at
          (deployment.dump j) t2 s differs held)

    existing_judgement-found :
        existing_judgement redis text deployment config request run s ≡ (ok (found the_replay), s)
    unfolding existing_judgement repeat_or_take_over with_stored
    existing_judgement-found = rw (read_found, valid, for_same_note) refl

    claim_key-found :
        (x : Entry String)
        → run.reserving.link ≡ answered
        → run.cancelled at_reserve ≡ false
        → run.cancelled at_existing ≡ false
        → text_at run.reserving.at again s ≡ some x
        → claim_key redis text deployment config request run s ≡ (ok (found the_replay), s)
    unfolding claim_key after_reserve
    claim_key-found x link c1 c2 e =
        rw
          (
            link,
            reserve-held run.reserving.at deployment.inflight_ttl s x e,
            c1,
            existing_judgement-found,
            c2,
          )
          refl

module _ (redis : Redis) (text : Text) (deployment : Deployment) (config : TenantConfig)
    (request : Request) (run : Run) where
  open redis use {Store, text_at}

  from_reply :
      (Good : Reply → Store → Type 0) (r : Fallible Raised Reply × Store) (reply : Reply)
      (s : Store)
      → r ≡ (ok reply, s)
      → Ends Good (λ e s'. Unit) r
      → Good reply s
  from_reply Good r reply s e h =
      subst (λ (x : Fallible Raised Reply × Store). Ends Good (λ e s'. Unit) x) e h

  -- A judgement that was made and confirmed is what the next request for the note gets. Where the
  -- first request passes the length gate, finds the key free and answers with a judgement `j`, a
  -- request for the same note of the same lead, whoever sends it and on whichever route, that comes
  -- after it and before the confirmation's lifetime ends answers with `j` under its own id, runs no
  -- pass and changes nothing in the store. The first request's reservation and confirmation are
  -- answered, the second before the reservation's lifetime ends, and so are the second request's two
  -- calls, at which it is not cancelled; the judgement is read back from its JSON, which is not the
  -- mark of a reservation.
  pub replay_lem :
      (next : Run) (subject request_id : String) (resubmission : Bool) (j : Judgement) (passes : ℕ)
      (s s1 : Store)
      → length_gate text config request.note ≡ none
      → text_at run.reserving.at (the_key redis text deployment config request run) s ≡ none
      → run.reserving.link ≡ answered
      → run.cancelled at_reserve ≡ false
      → run.confirming.link ≡ answered
      → run.reserving.at ≤ run.deciding.at
      → run.deciding.at ≤ run.confirming.at
      → run.confirming.at < run.reserving.at + deployment.inflight_ttl
      → run.confirming.at ≤ run.referring.at
      → judge redis text deployment config request run s ≡ (ok (judged j passes), s1)
      → next.reserving.link ≡ answered
      → next.existing.link ≡ answered
      → next.cancelled at_reserve ≡ false
      → next.cancelled at_existing ≡ false
      → run.referring.at ≤ next.reserving.at
      → next.reserving.at ≤ next.existing.at
      → next.existing.at < run.confirming.at + config.idempotency_ttl_seconds
      → deployment.validate (deployment.dump j) ≡ some j
      → deployment.dump j ≢ reserved
      → judge redis text deployment config
          (record request {
            subject = subject;
            request_id = request_id;
            resubmission = resubmission;
          })
          next
          s1
        ≡ (ok (replayed (record j { request_id = request_id })), s1)
  unfolding judge judge_unless after_claim
  replay_lem next subject request_id resubmission j passes s s1 gate free l1 c1 l2 o1 o2 o3 o4 made
        m1 m2 d1 d2 p1 p2 p3 valid differs =
      let (mine, kept) =
        from_reply _ _ (judged j passes) s1 made (
          judge-Stored redis text deployment config request run s free l1 c1 l2 o1 o2 o3 o4 gate) in
      let again = record request {
        subject = subject;
        request_id = request_id;
        resubmission = resubmission;
      } in
      rw
        (
          gate,
          claim_key-found redis text deployment config again next s1 j _ valid differs mine.0 mine.1
              m2 (kept next.existing.at (omega arith) p3) _ m1 d1 d2
              (kept next.reserving.at p1 (omega arith)),
        )
        refl
