-- ===== src/Decide.antt =====
-- What the CRM is told (src/dodeal_ai/units/structured_intelligence/decide.py).
pub mod Reasons
pub mod Verdicts
mod Examples
use do_deal_ai.Prelude.{
  ℕ, ◌+◌, ◌-◌, Bool, true, false, not, ◌||◌, Option, none, some, leb, if◌then◌else◌, is_some,
}
use do_deal_ai.Schemas.{
  NoteScore, NoteAnalysis, Decision, DecisionAction, accept_silent, accept_flag_prompt,
  prompt_clarification, Enforcement, EnforcementMode, EnforcementVerdict, EnforcementTarget,
  SuppressedDetail, PromptWithheld,
}
use do_deal_ai.TenantConfig.{TenantConfig}

-- `_action`.
unfoldable pub action_for : ℕ → TenantConfig → DecisionAction
action_for total config =
    if leb config.accept_threshold total
    then accept_silent
    else if leb config.flag_threshold total
    then accept_flag_prompt
    else prompt_clarification

-- `action in _FLAGGED_ACTIONS`.
is_flagged_action : Option DecisionAction → Bool
is_flagged_action none = false
is_flagged_action (some accept_silent) = false
is_flagged_action (some accept_flag_prompt) = true
is_flagged_action (some prompt_clarification) = true

-- `detail is _FLAGGED_SUPPRESSION`.
is_flagged_suppression : Option SuppressedDetail → Bool
is_flagged_suppression none = false
is_flagged_suppression (some SuppressedDetail.note_too_short) = true
is_flagged_suppression (some SuppressedDetail.system_event) = false
is_flagged_suppression (some SuppressedDetail.unclassifiable) = false
is_flagged_suppression (some SuppressedDetail.note_too_long) = false

verdict_for : EnforcementMode → Bool → Enforcement
verdict_for EnforcementMode.off flagged = record {
  mode = EnforcementMode.off;
  verdict = EnforcementVerdict.allow;
  applies_to = none;
}
verdict_for mode flagged = record {
  mode = mode;
  verdict = if flagged then EnforcementVerdict.flag else EnforcementVerdict.allow;
  applies_to = if flagged then some EnforcementTarget.note else none;
}

unfoldable pub enforcement :
    TenantConfig → Option DecisionAction → Option SuppressedDetail → Enforcement
unfolding verdict_for is_flagged_action is_flagged_suppression
enforcement config action detail =
    verdict_for config.enforcement_mode (is_flagged_action action || is_flagged_suppression detail)

-- The counters that the two guards answered with.
pub record Guards : Type 0 where
  pub attempts : ℕ
  pub rate_allowed : Bool
  pub rate_count : ℕ

unfoldable pub withheld_reason : NoteAnalysis → Guards → TenantConfig → Bool → Option PromptWithheld
withheld_reason analysis guards config resubmission =
    if resubmission
    then some PromptWithheld.resubmission
    else if leb config.clarification_cap guards.attempts
    then some PromptWithheld.attempt_cap
    else if not guards.rate_allowed || leb config.rate_limit_per_hour guards.rate_count
    then some PromptWithheld.rate_limited
    else if not (is_some analysis.clarification_prompt)
    then some PromptWithheld.nothing_to_ask
    else none

is_silent : DecisionAction → Bool
is_silent accept_silent = true
is_silent accept_flag_prompt = false
is_silent prompt_clarification = false

decision_for : DecisionAction → Bool → Option PromptWithheld → ℕ → TenantConfig → Decision
decision_for action prompt_sent withheld attempts config =
    let attempt = if prompt_sent then attempts + 1 else attempts in
    record {
      action = action;
      prompt_sent = prompt_sent;
      prompt_withheld = withheld;
      attempt = attempt;
      attempts_remaining = config.clarification_cap - attempt;
      original_note_fingerprint = none;
    }

unfoldable pub decide : NoteScore → NoteAnalysis → Guards → TenantConfig → Bool → Decision
unfolding action_for withheld_reason is_silent decision_for
decide score analysis guards config resubmission =
    let action = action_for score.total config in
    let withheld = withheld_reason analysis guards config resubmission in
    if is_silent action
    then decision_for action false none guards.attempts config
    else decision_for action (not (is_some withheld)) withheld guards.attempts config
