-- ===== src/Schemas.antt =====
-- The vocabularies and records of a judgement
-- (src/dodeal_ai/units/structured_intelligence/schemas.py).
--
-- `position` of a vocabulary is the place of a member in its declaration, which the source relies on
-- for the order of a response, and it tells the members apart.
use do_deal_ai.Prelude.{ℕ, Bool, Option, List, [], ◌∷◌, String, ◌==◌}

pub data NoteType : Type 0 where
  no_contact callback discovery viewing negotiation won_lost system_event : NoteType

-- `NoteType | Literal["unclassifiable"]`.
pub data ClassifierOutput : Type 0 where
  note_type : NoteType → ClassifierOutput
  unclassifiable : ClassifierOutput

pub data MissingComponent : Type 0 where
  what_happened client_said next_step_with_date : MissingComponent

pub data ComponentName : Type 0 where
  what_happened client_said next_step_date deal_specifics clarity : ComponentName

pub data CheckName : Type 0 where
  wh_outcome wh_action cs_present cs_own_terms ns_action ns_date ns_closure : CheckName
  ds_figures ds_subject ds_timing cl_readable cl_substance : CheckName

pub data Band : Type 0 where
  poor fair good excellent : Band

pub data DecisionAction : Type 0 where
  accept_silent accept_flag_prompt prompt_clarification : DecisionAction

pub data EnforcementMode : Type 0 where
  off advisory strict : EnforcementMode

pub data EnforcementVerdict : Type 0 where
  allow flag block : EnforcementVerdict

pub data EnforcementTarget : Type 0 where
  note : EnforcementTarget

pub data PromptWithheld : Type 0 where
  resubmission attempt_cap rate_limited nothing_to_ask : PromptWithheld

pub data SuppressedReason : Type 0 where
  insufficient_evidence not_scorable : SuppressedReason

pub data SuppressedDetail : Type 0 where
  note_too_short system_event unclassifiable note_too_long : SuppressedDetail

-- `for component in ComponentName`.
abbrev pub all_components : List ComponentName
all_components =
    ComponentName.what_happened ∷ ComponentName.client_said ∷ ComponentName.next_step_date
    ∷ ComponentName.deal_specifics ∷ ComponentName.clarity ∷ []

-- `for check in CheckName`.
abbrev pub all_checks : List CheckName
all_checks =
    wh_outcome ∷ wh_action ∷ cs_present ∷ cs_own_terms ∷ ns_action ∷ ns_date ∷ ns_closure
    ∷ ds_figures ∷ ds_subject ∷ ds_timing ∷ cl_readable ∷ cl_substance ∷ []

-- `list(Band)`.
abbrev pub all_bands : List Band
all_bands = poor ∷ fair ∷ good ∷ excellent ∷ []

abbrev pub component_position : ComponentName → ℕ
component_position ComponentName.what_happened = 0
component_position ComponentName.client_said = 1
component_position ComponentName.next_step_date = 2
component_position ComponentName.deal_specifics = 3
component_position ComponentName.clarity = 4

abbrev pub check_position : CheckName → ℕ
check_position wh_outcome = 0
check_position wh_action = 1
check_position cs_present = 2
check_position cs_own_terms = 3
check_position ns_action = 4
check_position ns_date = 5
check_position ns_closure = 6
check_position ds_figures = 7
check_position ds_subject = 8
check_position ds_timing = 9
check_position cl_readable = 10
check_position cl_substance = 11

-- `list(Band).index(band)`.
abbrev pub band_position : Band → ℕ
band_position poor = 0
band_position fair = 1
band_position good = 2
band_position excellent = 3

abbrev pub is_component : ComponentName → ComponentName → Bool
is_component a b = component_position a == component_position b

abbrev pub is_check : CheckName → CheckName → Bool
is_check a b = check_position a == check_position b

abbrev pub is_band : Band → Band → Bool
is_band a b = band_position a == band_position b

-- What the model answered: an absent check has no answer.
abbrev pub Checks : Type 0
Checks = CheckName → Option Bool

-- A null field is `none`.
pub record NoteAnalysis : Type 0 where
  pub analysed_type : Option ClassifierOutput
  pub is_vague : Option Bool
  pub missing_components : List MissingComponent
  pub clarification_prompt : Option String
  pub reasoning : Option String

pub record ScoreComponent : Type 0 where
  pub name : ComponentName
  pub mark : Option ℕ
  pub weight : ℕ
  pub suppressed : Bool

pub record NoteScore : Type 0 where
  pub total : ℕ
  pub band : Band
  pub denominator : ℕ
  pub components : List ScoreComponent

pub record Suppressed : Type 0 where
  pub reason : SuppressedReason
  pub detail_code : SuppressedDetail
  pub clarification_prompt : Option String
  pub prompt_withheld : Option PromptWithheld

pub record Decision : Type 0 where
  pub action : DecisionAction
  pub prompt_sent : Bool
  pub prompt_withheld : Option PromptWithheld
  pub attempt : ℕ
  pub attempts_remaining : ℕ
  pub original_note_fingerprint : Option String

pub record Enforcement : Type 0 where
  pub mode : EnforcementMode
  pub verdict : EnforcementVerdict
  pub applies_to : Option EnforcementTarget

pub record Versions : Type 0 where
  pub rubric_version : String
  pub prompt_version : String
  pub model_version : String
  pub config_version : String

pub record Judgement : Type 0 where
  pub note_id : ℕ
  pub lead_id : ℕ
  pub author_id : ℕ
  pub analysis : NoteAnalysis
  pub score : Option NoteScore
  pub decision : Option Decision
  pub suppressed : Option Suppressed
  pub enforced : Enforcement
  pub versions : Versions
  pub request_id : String

-- A validated answer of the vagueness pass.
pub record VagueOutput : Type 0 where
  pub is_vague : Bool
  pub missing_components : List MissingComponent
  pub clarification_prompt : Option String
  pub reasoning : String
