-- ===== src/Pipeline/Judge/Shape.antt =====
-- What a judgement holds, by how many passes ran
-- (src/dodeal_ai/units/structured_intelligence/pipeline.py, `_judge`).
use do_deal_ai.Prelude.{ℕ, ◌≡◌, Bool, none, some, String, ok}
use do_deal_ai.Schemas.{
  NoteType, ClassifierOutput, not_scorable, SuppressedReason, SuppressedDetail, Judgement,
  NoteScore, Decision, Suppressed, Checks, VagueOutput,
}
use do_deal_ai.TenantConfig.{TenantConfig}
use do_deal_ai.Decide.{enforcement}
use do_deal_ai.Scoring.{compute_score}
use do_deal_ai.Pipeline.Judge.{Request, Run, no_model, suppression_for, may_reprompt, analysis_of}

module _ (config : TenantConfig) (request : Request) (run : Run) where
  abbrev pub IsForRequest : Judgement → Type 0
  IsForRequest j =
      (j.note_id ≡ request.note_id)
      × (j.lead_id ≡ request.lead_id)
      × (j.author_id ≡ request.author_id)
      × (j.request_id ≡ request.request_id)

  -- No score and no decision, and the block of the detail.
  abbrev pub IsSuppressed : SuppressedReason → SuppressedDetail → Judgement → Type 0
  IsSuppressed reason detail j =
      (j.score ≡ none)
      × (j.decision ≡ none)
      × (j.enforced ≡ enforcement config none (some detail))
      × ((block : Suppressed) × (j.suppressed ≡ some block)
          × (block.reason ≡ reason)
          × (block.detail_code ≡ detail))

  -- The classifier, asked as the budget allows, answered with this type and stamp.
  abbrev pub Classified : Bool → ClassifierOutput → String → Type 0
  Classified reprompt type model =
      (may_reprompt run.preflight ≡ ok reprompt) × (run.classify reprompt ≡ ok (type, model))

  -- What the three passes answered for one type, what the arithmetic made of it, and what is stamped.
  pub record IsScored (j : Judgement) : Type 0 where
    pub reprompt : Bool
    pub type : NoteType
    pub classifier : String
    pub output : VagueOutput
    pub detector : String
    pub checks : Checks
    pub score : NoteScore
    pub decision : Decision
    pub by_classifier : Classified reprompt (ClassifierOutput.note_type type) classifier
    pub goes_on : suppression_for (ClassifierOutput.note_type type) ≡ none
    pub by_detector : run.detect_vagueness reprompt type ≡ ok (output, detector)
    pub by_scorer : run.score_note reprompt type ≡ ok (checks, j.versions.model_version)
    pub by_arithmetic : compute_score checks type config ≡ ok score
    pub analysed : j.analysis ≡ analysis_of type output
    pub has_score : j.score ≡ some score
    pub has_decision : j.decision ≡ some decision
    pub not_suppressed : j.suppressed ≡ none
    pub block : j.enforced ≡ enforcement config (some decision.action) none

  -- Nothing paid for, the classifier alone, or all three passes.
  pub data IsWhole (j : Judgement) : ℕ → Type 0 where
    stopped_by_length :
        (reason : SuppressedReason) (detail : SuppressedDetail)
        → IsForRequest j
        → IsSuppressed reason detail j
        → j.versions.model_version ≡ no_model
        → IsWhole j 0
    stopped_by_classifier :
        (reprompt : Bool) (detail : SuppressedDetail) (type : ClassifierOutput)
        → IsForRequest j
        → IsSuppressed not_scorable detail j
        → Classified reprompt type j.versions.model_version
        → suppression_for type ≡ some detail
        → j.analysis.analysed_type ≡ some type
        → IsWhole j 1
    scored_by_all : IsForRequest j → IsScored j → IsWhole j 3
