-- ===== src/Pipeline/Length/Question.antt =====
-- The fixed question takes a slot like any other
-- (src/dodeal_ai/units/structured_intelligence/pipeline.py, `_fixed_question`).
use do_deal_ai.Prelude.{
  ℕ, ◌≤◌, ◌≡◌, refl, ◌⊎◌, leb, Bool-cases, Bool, true, false, Option, none, some, String, arith,
  inl, inr,
}
use do_deal_ai.Schemas.{SuppressedDetail, PromptWithheld}
use do_deal_ai.TenantConfig.{TenantConfig}
use do_deal_ai.Decide.{Guards, withheld_reason}
use do_deal_ai.Redis.{Redis}
use do_deal_ai.Redis.Links.{answered}
use do_deal_ai.State.{read_attempts, take_prompt_slots}
use do_deal_ai.State.Slots.{SlotsFree, AllTaken, Answers, take_prompt_slots_lem}
use do_deal_ai.Pipeline.Limits.{limits_of}
use do_deal_ai.Pipeline.Length.{Trip, is_too_short, analysis_asking, fixed_question}

module _ (redis : Redis) (config : TenantConfig) (prompt : String) (reading : Trip) (now : ℕ)
    (tenant : String) (note_id : ℕ) (subject : String) (s : redis.Store) where
  open redis use {Store}

  -- What comes of asking, by whether the note is too short and whether it is a resubmission.
  abbrev pub AskedFairly : Bool → Bool → (Option String × Option PromptWithheld) × Store → Type 0
  AskedFairly false resubmission ((asked, withheld), s') =
      (asked ≡ none) × (withheld ≡ none) × (s' ≡ s)
  AskedFairly true true ((asked, withheld), s') =
      (asked ≡ some prompt) × (withheld ≡ some PromptWithheld.resubmission) × (s' ≡ s)
  AskedFairly true false ((asked, withheld), s') =
      (asked ≡ some prompt)
      × (((withheld ≡ none)
            × SlotsFree redis (limits_of config) now tenant note_id subject s
            × AllTaken redis (limits_of config) now tenant note_id subject s s')
          ⊎ (((withheld ≡ some PromptWithheld.attempt_cap)
                ⊎ (withheld ≡ some PromptWithheld.rate_limited))
              × ¬ SlotsFree redis (limits_of config) now tenant note_id subject s
              × (s' ≡ s)))

  held_by :
      (guards : Guards)
      → (config.clarification_cap ≤ guards.attempts) ⊎ (guards.rate_allowed ≡ false)
      → (withheld_reason (analysis_asking prompt) guards config false
          ≡ some PromptWithheld.attempt_cap)
        ⊎ (withheld_reason (analysis_asking prompt) guards config false
            ≡ some PromptWithheld.rate_limited)
  unfolding withheld_reason
  held_by guards h = elim (Bool-cases (leb config.clarification_cap guards.attempts)) [
    | inl e ↦ inl (ground arith)
    | inr e ↦ inr (ground arith)
  ]

  after_slots :
      (attempts : ℕ) (r : Guards × Store)
      → Answers redis (limits_of config) now tenant note_id subject s answered attempts r
      → AskedFairly true false
          ((some prompt, withheld_reason (analysis_asking prompt) r.0 config false), r.1)
  unfolding withheld_reason
  after_slots attempts (guards, s') (inl (free, g, all)) = (refl, inl (ground arith, free, all))
  after_slots attempts (guards, s') (inr (full, busy, e, kept)) =
      (refl, inr (held_by guards full, busy, kept))

  -- The question for a note that the length gate stopped, where the store answers. A note that is too
  -- short has one: it goes out exactly where the note's attempts and both of the subject's windows were
  -- under their limits and one slot of each is taken, and is withheld, for the cap or the rate, where
  -- one was not, the store left as it was. On a resubmission it is withheld and the store left alone;
  -- for any other detail there is neither a question nor a reason.
  pub fixed_question_lem :
      (detail : SuppressedDetail) (resubmission : Bool)
      → AskedFairly (is_too_short detail) resubmission (
          fixed_question redis config detail prompt resubmission reading
            (record { at = now; link = answered })
            tenant
            note_id
            subject
            s)
  unfolding fixed_question
  fixed_question_lem SuppressedDetail.note_too_short true = (refl, refl, refl)
  fixed_question_lem SuppressedDetail.note_too_short false =
      let attempts = read_attempts redis reading.link reading.at tenant note_id s in
      after_slots attempts
        (take_prompt_slots redis (limits_of config) answered now tenant note_id subject attempts s)
        (take_prompt_slots_lem redis (limits_of config) now tenant note_id subject s answered
          attempts)
  fixed_question_lem SuppressedDetail.note_too_long resubmission = (refl, refl, refl)
  fixed_question_lem SuppressedDetail.system_event resubmission = (refl, refl, refl)
  fixed_question_lem SuppressedDetail.unclassifiable resubmission = (refl, refl, refl)
