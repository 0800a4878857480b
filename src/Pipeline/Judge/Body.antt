-- ===== src/Pipeline/Judge/Body.antt =====
-- The steps inside the `try` make a whole judgement
-- (src/dodeal_ai/units/structured_intelligence/pipeline.py, `_judge`).
use do_deal_ai.Prelude.{
  ℕ, ◌<◌, ◌≡◌, refl, inl, inr, Bool, Option, none, some, String, arith, Fallible, err, ok,
  Bool-cases,
}
use do_deal_ai.Schemas.{
  NoteType, ClassifierOutput, unclassifiable, not_scorable, SuppressedDetail, NoteScore,
  NoteAnalysis, Checks,
}
use do_deal_ai.TenantConfig.{TenantConfig}
use do_deal_ai.Decide.{decide}
use do_deal_ai.Scoring.{compute_score}
use do_deal_ai.Redis.{Redis, TextKey}
use do_deal_ai.State.{confirm_idempotency}
use do_deal_ai.State.Texts.{SameText, take_prompt_slots-SameText}
use do_deal_ai.Pipeline.Limits.{limits_of}
use do_deal_ai.Pipeline.{open_guards, decision_on, rate_limit_trip, is_nothing_to_ask}
use do_deal_ai.Pipeline.Length.{Text}
use do_deal_ai.Pipeline.Judge.{
  Raised, Request, Run, Deployment, at_vague_and_score, at_decision, at_attempts, at_preflight,
  at_classify, at_confirm, suppression_for, scored, may_reprompt, suppressed_judgement,
  scored_judgement, gather,
}
use do_deal_ai.Pipeline.Judge.Rules.{Ends, Ends-await_at, Ends-lift, Ends-and_then}
use do_deal_ai.Pipeline.Judge.Steps.{Judged, score_and_decide, after_classify, body}
use do_deal_ai.Pipeline.Judge.Shape.{IsWhole, Classified, stopped_by_classifier, scored_by_all}

gathered :
    {A B : Type 0} (f : Bool) (a : Fallible Raised A) (b : Fallible Raised B) (p : A × B)
    → gather f a b ≡ ok p
    → (a ≡ ok p.0) × (b ≡ ok p.1)
unfolding gather
gathered f (ok a) (ok b) p h = (cc h, cc h)
gathered f (ok a) (err e) p h = absurd (cc h)
gathered f (err e) (ok b) p h = absurd (cc h)
gathered f (err e) (err e') p h = absurd (cc h)

module _ (redis : Redis) (text : Text) (deployment : Deployment) (config : TenantConfig)
    (request : Request) (run : Run) (key : TextKey) where
  open redis use {Store}

  -- Anything, of an exception.
  abbrev pub Whatever : Raised → Store → Type 0
  Whatever e s = Unit

  -- The store reads as before at the key, from the decision on.
  abbrev pub Untouched : Store → Store → Type 0
  Untouched = SameText redis run.deciding.at key

  decision_on-Untouched :
      (attempts : ℕ) (score : NoteScore) (analysis : NoteAnalysis) (s : Store)
      → Untouched s
          (decision_on redis run.deciding.link run.deciding.at request.tenant request.note_id
            request.subject attempts score analysis config request.resubmission run.first_asked.link
            s).1
  unfolding decision_on rate_limit_trip
  decision_on-Untouched attempts score analysis s later h =
      let provisional = decide score analysis (open_guards attempts) config request.resubmission in
      elim (Bool-cases provisional.prompt_sent) [
        | inl p ↦ rw p (
            take_prompt_slots-SameText redis run.deciding.at key (limits_of config)
              run.deciding.link request.tenant request.note_id request.subject attempts s later h)
        | inr p ↦ elim (Bool-cases (is_nothing_to_ask provisional.prompt_withheld)) [
          | inl n ↦ rw (p, n) refl
          | inr n ↦ rw (p, n) refl
        ]
      ]

  scored-ok :
      (checks : Checks) (type : NoteType) (score : NoteScore)
      → scored checks type config ≡ ok score
      → compute_score checks type config ≡ ok score
  unfolding scored
  scored-ok checks type score h = ground arith

  -- A finished body: a whole judgement, the key as it was from the decision on.
  abbrev Finished : Store → Judged → Store → Type 0
  Finished s r s' = IsWhole config request run r.0 r.1 × (0 < r.1) × Untouched s s'

  score_and_decide-IsWhole :
      (reprompt : Bool) (attempts : ℕ) (type : NoteType) (model : String) (s : Store)
      → Classified config request run reprompt (ClassifierOutput.note_type type) model
      → suppression_for (ClassifierOutput.note_type type) ≡ none
      → Ends
          (Finished s)
          Whatever
          (score_and_decide redis text deployment config request run reprompt attempts type s)
  unfolding score_and_decide scored_judgement
  score_and_decide-IsWhole reprompt attempts type model s asked h =
      Ends-await_at (Finished s) Whatever s run at_vague_and_score _ (λ _. tt)
        λ _.
          Ends-lift (Finished s) Whatever s
            (gather run.score_first (run.detect_vagueness reprompt type)
              (run.score_note reprompt type))
            _ (λ e _. tt)
            λ passes g.
              Ends-lift (Finished s) Whatever s (scored passes.1.0 type config) _ (λ e _. tt)
                λ score e.
                  let (a, b) =
                    gathered run.score_first (run.detect_vagueness reprompt type)
                      (run.score_note reprompt type) passes g in
                  Ends-await_at (Finished s) Whatever _ run at_decision _ (λ _. tt)
                    λ _. (
                      scored_by_all (refl, refl, refl, refl)
                          (record {
                            reprompt = reprompt;
                            type = type;
                            classifier = model;
                            output = passes.0.0;
                            detector = passes.0.1;
                            checks = passes.1.0;
                            score = score;
                            decision = _;
                            by_classifier = asked;
                            goes_on = h;
                            by_detector = a;
                            by_scorer = b;
                            by_arithmetic = scored-ok passes.1.0 type score e;
                            analysed = refl;
                            has_score = refl;
                            has_decision = refl;
                            not_suppressed = refl;
                            block = refl;
                          }),
                      omega arith,
                      decision_on-Untouched attempts score _ s,
                    )

  after_classify-IsWhole :
      (reprompt : Bool) (attempts : ℕ) (type : ClassifierOutput) (model : String)
      (detail : Option SuppressedDetail) (s : Store)
      → Classified config request run reprompt type model
      → suppression_for type ≡ detail
      → Ends (Finished s) Whatever (
          after_classify redis text deployment config request run reprompt attempts type model
            detail s)
  unfolding after_classify suppressed_judgement
  after_classify-IsWhole reprompt attempts type model (some detail) s asked h = (
    stopped_by_classifier reprompt detail type (refl, refl, refl, refl)
        (
          refl,
          refl,
          refl,
          (
            record {
              reason = not_scorable;
              detail_code = detail;
              clarification_prompt = none;
              prompt_withheld = none;
            },
            refl,
            refl,
            refl,
          ),
        )
        asked h refl,
    omega arith,
    λ later l. refl,
  )
  after_classify-IsWhole reprompt attempts (ClassifierOutput.note_type type) model none s asked h =
      score_and_decide-IsWhole reprompt attempts type model s asked h
  after_classify-IsWhole reprompt attempts unclassifiable model none s asked h = tt

  -- What the `try` leaves when it ends well: the judgement confirmed in a store whose key was
  -- untouched.
  abbrev pub Confirmed : Store → Judged → Store → Type 0
  Confirmed s r s' =
      IsWhole config request run r.0 r.1
      × (0 < r.1)
      × ((s2 : Store) × Untouched s s2
          × (s'
              ≡ confirm_idempotency redis run.confirming.link run.confirming.at request.tenant
                  request.note_id request.fingerprint (deployment.dump r.0)
                  config.idempotency_ttl_seconds s2))

  pub body-Confirmed :
      (s : Store) → Ends (Confirmed s) Whatever (body redis text deployment config request run s)
  unfolding body
  body-Confirmed s =
      let Good = Confirmed s in
      Ends-await_at Good Whatever s run at_attempts _ (λ _. tt)
        λ _.
          Ends-await_at Good Whatever s run at_preflight _ (λ _. tt)
            λ _.
              Ends-lift Good Whatever s (may_reprompt run.preflight) _ (λ e _. tt)
                λ reprompt p.
                  Ends-await_at Good Whatever s run at_classify _ (λ _. tt)
                    λ _.
                      Ends-lift Good Whatever s (run.classify reprompt) _ (λ e _. tt)
                        λ answer c.
                          Ends-and_then (Finished s) Good Whatever _ _
                            (after_classify-IsWhole reprompt _ answer.0 answer.1
                              (suppression_for answer.0) s (p, c) refl)
                            λ r s2 fin.
                              Ends-await_at Good Whatever _ run at_confirm _ (λ _. tt)
                                λ _. (fin.0, fin.1, (s2, fin.2, refl))
