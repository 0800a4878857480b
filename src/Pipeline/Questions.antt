-- ===== src/Pipeline/Questions.antt =====
-- A question is sent exactly where a slot for it was taken
-- (src/dodeal_ai/units/structured_intelligence/pipeline.py).
use do_deal_ai.Prelude.{
  ℕ, ◌≤◌, ◌<◌, Bool, true, false, ◌≡◌, ◌⊎◌, inl, inr, refl, Option, String, arith, if◌then◌else◌,
  Bool-cases,
}
use do_deal_ai.Schemas.{NoteScore, NoteAnalysis, Decision}
use do_deal_ai.TenantConfig.{TenantConfig}
use do_deal_ai.Decide.{Guards, decide}
use do_deal_ai.Decide.Reasons.{prompt_sent-decide}
use do_deal_ai.Redis.{Redis}
use do_deal_ai.Redis.Links.{Link, answered}
use do_deal_ai.State.{take_prompt_slots, read_rate_limit}
use do_deal_ai.State.Slots.{SlotsFree, AllTaken, Answers, take_prompt_slots_lem}
use do_deal_ai.Pipeline.Limits.{limits_of}
use do_deal_ai.Pipeline.{is_nothing_to_ask, open_guards, rate_limit_trip, decision_on}

sent_with_reference :
    (resubmission : Bool) (d : Decision) (first_asked : Option String)
    → (if resubmission then record d { original_note_fingerprint = first_asked } else d).prompt_sent
      ≡ d.prompt_sent
sent_with_reference true d first_asked = refl
sent_with_reference false d first_asked = refl

module _ (redis : Redis) (config : TenantConfig) (score : NoteScore) (analysis : NoteAnalysis)
    (resubmission : Bool) (reference : Link) (now : ℕ) (tenant : String) (note_id : ℕ)
    (subject : String) (attempts : ℕ) (s : redis.Store) where
  open redis use {Store}

  -- What a decision and the store after it say of each other.
  abbrev pub SlotPerQuestion : Bool → Store → Type 0
  SlotPerQuestion sent s' =
      if sent
      then SlotsFree redis (limits_of config) now tenant note_id subject s
        × AllTaken redis (limits_of config) now tenant note_id subject s s'
      else s' ≡ s

  abbrev provisional : Decision
  provisional = decide score analysis (open_guards attempts) config resubmission

  sent_again :
      (guards : Guards)
      → provisional.prompt_sent ≡ true
      → guards.attempts < config.clarification_cap
      → guards.rate_allowed ≡ true
      → guards.rate_count < config.rate_limit_per_hour
      → (decide score analysis guards config resubmission).prompt_sent ≡ true
  sent_again guards p a b c =
      let (below, first, under, allowed, room, question) =
        (prompt_sent-decide score analysis (open_guards attempts) config resubmission).0 p in
      (prompt_sent-decide score analysis guards config resubmission).1
        (below, first, a, b, c, question)

  held_back :
      (guards : Guards)
      → (config.clarification_cap ≤ guards.attempts) ⊎ (guards.rate_allowed ≡ false)
      → (decide score analysis guards config resubmission).prompt_sent ≡ false
  unfolding decide
  held_back guards h = ground arith

  nothing_asked :
      (guards : Guards)
      → is_nothing_to_ask provisional.prompt_withheld ≡ true
      → (decide score analysis guards config resubmission).prompt_sent ≡ false
  unfolding decide
  nothing_asked guards h = ground arith

  after_trip :
      (r : Guards × Store)
      → provisional.prompt_sent ≡ true
      → Answers redis (limits_of config) now tenant note_id subject s answered attempts r
      → SlotPerQuestion (decide score analysis r.0 config resubmission).prompt_sent r.1
  after_trip (guards, s') p (inl (free, g, all)) =
      rw (sent_again guards p (ground arith) (ground arith) (ground arith)) (free, all)
  after_trip (guards, s') p (inr (full, busy, e, kept)) = rw (held_back guards full) kept

  -- Where the store answers, a question that is sent has taken one slot of the note's attempts and one
  -- of each of the subject's two rate counters, all three of which were under their limits; where none
  -- is sent the store is as it was.
  pub slot_per_question :
      let (decision, s') =
        decision_on redis answered now tenant note_id subject attempts score analysis config
          resubmission reference s in
      SlotPerQuestion decision.prompt_sent s'
  unfolding decision_on rate_limit_trip
  slot_per_question =
      rw (sent_with_reference resubmission) (elim (Bool-cases provisional.prompt_sent) [
        | inl p ↦ rw p (
            after_trip
              (take_prompt_slots redis (limits_of config) answered now tenant note_id subject
                attempts s)
              p
              (take_prompt_slots_lem redis (limits_of config) now tenant note_id subject s answered
                attempts))
        | inr p ↦ elim (Bool-cases (is_nothing_to_ask provisional.prompt_withheld)) [
          | inl n ↦
              rw
                (
                  p,
                  n,
                  nothing_asked
                      (record {
                        attempts = attempts;
                        rate_allowed = true;
                        rate_count = read_rate_limit redis answered now tenant subject s;
                      })
                      n,
                )
                refl
          | inr n ↦ rw (p, n, p) refl
        ]
      ])
