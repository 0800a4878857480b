-- ===== src/Decide/Reasons.antt =====
-- When a question is sent, and why not
-- (src/dodeal_ai/units/structured_intelligence/decide.py, `decide` and `withheld_reason`).
use do_deal_ai.Prelude.{
  ◌+◌, ◌≤◌, ◌<◌, Bool, true, false, ◌≡◌, ◌↔◌, ◌⊎◌, none, some, arith, is_some, max, if◌then◌else◌,
}
use do_deal_ai.Schemas.{NoteScore, NoteAnalysis, PromptWithheld}
use do_deal_ai.TenantConfig.{TenantConfig}
use do_deal_ai.Decide.{Guards, withheld_reason, decide}

module _ (analysis : NoteAnalysis) (guards : Guards) (config : TenantConfig) where
  -- Each reason with the conditions under which it is the one to report: its own holds and those
  -- before it in the order do not.
  abbrev pub Because : Bool → PromptWithheld → Type 0
  Because resubmission PromptWithheld.resubmission = resubmission ≡ true
  Because resubmission PromptWithheld.attempt_cap =
      (resubmission ≡ false) × (config.clarification_cap ≤ guards.attempts)
  Because resubmission PromptWithheld.rate_limited =
      (resubmission ≡ false)
      × (guards.attempts < config.clarification_cap)
      × ((guards.rate_allowed ≡ false) ⊎ (config.rate_limit_per_hour ≤ guards.rate_count))
  Because resubmission PromptWithheld.nothing_to_ask =
      (resubmission ≡ false)
      × (guards.attempts < config.clarification_cap)
      × (guards.rate_allowed ≡ true)
      × (guards.rate_count < config.rate_limit_per_hour)
      × (analysis.clarification_prompt ≡ none)

  Because-to :
      (resubmission : Bool) (reason : PromptWithheld)
      → withheld_reason analysis guards config resubmission ≡ some reason
      → Because resubmission reason
  unfolding withheld_reason
  Because-to r PromptWithheld.resubmission h = ground arith
  Because-to r PromptWithheld.attempt_cap h = ground arith
  Because-to r PromptWithheld.rate_limited h = ground arith
  Because-to r PromptWithheld.nothing_to_ask h = ground arith

  Because-from :
      (resubmission : Bool) (reason : PromptWithheld)
      → Because resubmission reason
      → withheld_reason analysis guards config resubmission ≡ some reason
  unfolding withheld_reason
  Because-from r PromptWithheld.resubmission h = ground arith
  Because-from r PromptWithheld.attempt_cap h = ground arith
  Because-from r PromptWithheld.rate_limited h = ground arith
  Because-from r PromptWithheld.nothing_to_ask h = ground arith

  -- A reason is reported exactly when its own condition holds and none of those that come before it
  -- in the order resubmission, attempt cap, rate limit, nothing to ask does.
  pub withheld_reason_iff :
      (resubmission : Bool) (reason : PromptWithheld)
      → (withheld_reason analysis guards config resubmission ≡ some reason)
        ↔ Because resubmission reason
  withheld_reason_iff resubmission reason =
      (Because-to resubmission reason, Because-from resubmission reason)

module _ (score : NoteScore) (analysis : NoteAnalysis) (guards : Guards) (config : TenantConfig)
    (resubmission : Bool) where
  -- The conditions under which a question is sent.
  abbrev pub MaySend : Type 0
  MaySend =
      (score.total < config.accept_threshold)
      × (resubmission ≡ false)
      × (guards.attempts < config.clarification_cap)
      × (guards.rate_allowed ≡ true)
      × (guards.rate_count < config.rate_limit_per_hour)
      × (is_some analysis.clarification_prompt ≡ true)

  sent_to : (decide score analysis guards config resubmission).prompt_sent ≡ true → MaySend
  unfolding decide
  sent_to h = ground arith

  sent_from : MaySend → (decide score analysis guards config resubmission).prompt_sent ≡ true
  unfolding decide
  sent_from h = ground arith

  -- A question is sent exactly when the total is below the accept threshold, the request is no
  -- resubmission, the note has attempts left, the rate guard allows one more and there is a question.
  pub prompt_sent-decide :
      ((decide score analysis guards config resubmission).prompt_sent ≡ true) ↔ MaySend
  prompt_sent-decide = (λ h. sent_to h, λ h. sent_from h)

  attempt_after :
      let d = decide score analysis guards config resubmission in
      d.attempt ≡ (if d.prompt_sent then guards.attempts + 1 else guards.attempts)
  unfolding decide
  attempt_after = ground arith

  remaining :
      let d = decide score analysis guards config resubmission in
      d.attempt + d.attempts_remaining ≡ max config.clarification_cap d.attempt
  unfolding decide
  remaining = ground arith

  capped :
      (decide score analysis guards config resubmission).attempt
      ≤ max config.clarification_cap guards.attempts
  unfolding decide
  capped = ground arith

  withheld_to :
      let d = decide score analysis guards config resubmission in
      is_some d.prompt_withheld ≡ true
      → (d.prompt_sent ≡ false) × (score.total < config.accept_threshold)
  unfolding decide
  withheld_to h = ground arith

  withheld_from :
      let d = decide score analysis guards config resubmission in
      (d.prompt_sent ≡ false) × (score.total < config.accept_threshold)
      → is_some d.prompt_withheld ≡ true
  unfolding decide
  withheld_from h = ground arith

  -- The attempt that is reported is one more than the count before exactly when a question is sent,
  -- a question never takes it past the cap, the attempts that remain fill it up to the cap or are
  -- none when it is past it, and a reason to withhold is reported exactly when a note below the accept
  -- threshold gets no question.
  attempt-decide :
      let d = decide score analysis guards config resubmission in
      (d.attempt ≡ (if d.prompt_sent then guards.attempts + 1 else guards.attempts))
      × (d.attempt + d.attempts_remaining ≡ max config.clarification_cap d.attempt)
      × (d.attempt ≤ max config.clarification_cap guards.attempts)
      × ((is_some d.prompt_withheld ≡ true)
          ↔ ((d.prompt_sent ≡ false) × (score.total < config.accept_threshold)))
  attempt-decide = (attempt_after, remaining, capped, (withheld_to, withheld_from))
