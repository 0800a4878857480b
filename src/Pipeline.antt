-- ===== src/Pipeline.antt =====
-- The prompt guards' trip and the decision
-- (src/dodeal_ai/units/structured_intelligence/pipeline.py, `_rate_limit_trip` and the steps of
-- `_judge` from the score to the decision).
--
-- The passes of the model, the reservation around them and the outcome line are not here. Nothing else
-- runs between the two commands on the store.
pub mod Limits
pub mod Length
pub mod Ascii
pub mod Judge
pub mod Questions
mod Examples
use do_deal_ai.Prelude.{ℕ, ◌+◌, Bool, true, false, Option, none, some, String, if◌then◌else◌}
use do_deal_ai.Schemas.{NoteScore, NoteAnalysis, Decision, PromptWithheld}
use do_deal_ai.TenantConfig.{TenantConfig}
use do_deal_ai.Decide.{Guards, decide}
use do_deal_ai.Redis.{Redis}
use do_deal_ai.Redis.Links.{Link}
use do_deal_ai.Pipeline.Limits.{limits_of}
use do_deal_ai.State.{take_prompt_slots, read_rate_limit, read_attempt_fingerprint}

-- `provisional.prompt_withheld is PromptWithheld.NOTHING_TO_ASK`.
abbrev pub is_nothing_to_ask : Option PromptWithheld → Bool
is_nothing_to_ask (some PromptWithheld.nothing_to_ask) = true
is_nothing_to_ask _ = false

-- The guards with the window assumed open.
abbrev pub open_guards : ℕ → Guards
open_guards attempts = record { attempts = attempts; rate_allowed = true; rate_count = 0 }

module _ (redis : Redis) where
  open redis use {Store}

  unfoldable pub rate_limit_trip :
      Decision → Link → ℕ → String → ℕ → String → ℕ → TenantConfig → Store → Guards × Store
  rate_limit_trip provisional link now tenant note_id subject attempts config s =
      if provisional.prompt_sent
      then take_prompt_slots redis (limits_of config) link now tenant note_id subject attempts s
      else if is_nothing_to_ask provisional.prompt_withheld
      then (
        record {
          attempts = attempts;
          rate_allowed = true;
          rate_count = read_rate_limit redis link now tenant subject s;
        },
        s,
      )
      else (open_guards attempts, s)

  -- The decision of `_judge`: decided with the window assumed open, which picks the trip, and again
  -- with what the store said. A resubmission has the text first asked about read back.
  unfoldable pub decision_on :
      Link
      → ℕ
      → String
      → ℕ
      → String
      → ℕ
      → NoteScore
      → NoteAnalysis
      → TenantConfig
      → Bool
      → Link
      → Store
      → Decision × Store
  unfolding rate_limit_trip
  decision_on link now tenant note_id subject attempts score analysis config resubmission reference
        s =
      let provisional = decide score analysis (open_guards attempts) config resubmission in
      let (guards, s') =
        rate_limit_trip provisional link now tenant note_id subject attempts config s in
      let decision = decide score analysis guards config resubmission in
      let first_asked = read_attempt_fingerprint redis reference now tenant note_id s' in
      (
        if resubmission
            then record decision { original_note_fingerprint = first_asked }
            else decision,
        s',
      )
