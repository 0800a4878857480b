-- ===== src/Decide/Verdicts.antt =====
-- The advice and the enforcement block
-- (src/dodeal_ai/units/structured_intelligence/decide.py, `_action` and `enforcement`).
use do_deal_ai.Prelude.{ℕ, ◌≤◌, ◌≡◌, ◌≢◌, ◌↔◌, ◌⊎◌, Bool, Option, none, some, arith}
use do_deal_ai.Schemas.{
  DecisionAction, accept_silent, accept_flag_prompt, prompt_clarification, EnforcementMode,
  EnforcementVerdict, SuppressedDetail, NoteScore, NoteAnalysis,
}
use do_deal_ai.TenantConfig.{TenantConfig}
use do_deal_ai.Decide.{enforcement, Guards, decide}

-- How far an action goes: silence, a flag, a question.
abbrev pub severity : DecisionAction → ℕ
severity accept_silent = 0
severity accept_flag_prompt = 1
severity prompt_clarification = 2

-- The advice depends on the score alone: it is the same for every count, route and analysis, a higher
-- total never makes it more severe, and it is silent exactly from the accept threshold on.
action-decide :
    (lower higher : NoteScore) (analysis analysis' : NoteAnalysis) (guards guards' : Guards)
    (config : TenantConfig) (resubmission resubmission' : Bool)
    → lower.total ≤ higher.total
    → let first = decide lower analysis guards config resubmission in
      let second = decide higher analysis' guards' config resubmission' in
      (severity second.action ≤ severity first.action)
      × ((first.action ≡ accept_silent) ↔ (config.accept_threshold ≤ lower.total))
unfolding decide
action-decide lower higher analysis analysis' guards guards' config r r' h =
    (ground arith, (λ e. ground arith, λ e. ground arith))

-- What a judgement is flagged for.
abbrev pub Complaint : Option DecisionAction → Option SuppressedDetail → Type 0
Complaint action detail =
    (action ≡ some accept_flag_prompt)
    ⊎ (action ≡ some prompt_clarification)
    ⊎ (detail ≡ some SuppressedDetail.note_too_short)

flag_to :
    (config : TenantConfig) (action : Option DecisionAction) (detail : Option SuppressedDetail)
    → (enforcement config action detail).verdict ≡ EnforcementVerdict.flag
    → (config.enforcement_mode ≢ EnforcementMode.off) × Complaint action detail
unfolding enforcement
flag_to config action detail h = ground arith

flag_from :
    (config : TenantConfig) (action : Option DecisionAction) (detail : Option SuppressedDetail)
    → (config.enforcement_mode ≢ EnforcementMode.off) × Complaint action detail
    → (enforcement config action detail).verdict ≡ EnforcementVerdict.flag
unfolding enforcement
flag_from config action detail h = ground arith

-- The block states the tenant's mode, never blocks, flags exactly when the mode is not off and there
-- is a flagged action or a note below the length floor, and says what it is about exactly when it
-- flags.
enforcement_lem :
    (config : TenantConfig) (action : Option DecisionAction) (detail : Option SuppressedDetail)
    → let e = enforcement config action detail in
      (e.mode ≡ config.enforcement_mode)
      × (e.verdict ≢ EnforcementVerdict.block)
      × ((e.verdict ≡ EnforcementVerdict.flag)
          ↔ ((config.enforcement_mode ≢ EnforcementMode.off) × Complaint action detail))
      × ((e.applies_to ≢ none) ↔ (e.verdict ≡ EnforcementVerdict.flag))
unfolding enforcement
enforcement_lem config action detail = (
  ground arith,
  ground arith,
  (λ h. flag_to config action detail h, λ h. flag_from config action detail h),
  (λ h. ground arith, λ h. ground arith),
)
