-- ===== src/Passes/Vague.antt =====
-- The vagueness and scoring passes: what their answers must be
-- (src/dodeal_ai/units/structured_intelligence/vague.py, scoring.py and schemas.py).
use do_deal_ai.Prelude.{
  ℕ, ◌<◌, ◌≡◌, ◌↔◌, refl, Bool, true, false, not, ◌&&◌, ◌||◌, Option, none, some, List, [], ◌∷◌,
  String, all, is_some, if◌then◌else◌, Fallible, err, ok, arith, Bool-cases, Option-cases, inl, inr,
}
use mathlib.Core.Option.{some-injective}
use mathlib.Core.Path.{subst}
use do_deal_ai.Schemas.{NoteType, MissingComponent, Checks, VagueOutput, NoteScore}
use do_deal_ai.TenantConfig.{TenantConfig}
use do_deal_ai.TenantConfig.Bands.{HasBands}
use do_deal_ai.Scoring.{validate_checks, compute_score}
use do_deal_ai.Scoring.Answers.{validate_checks_iff}
use do_deal_ai.Scoring.Totals.{denominator_of}
use do_deal_ai.Scoring.Totals.Bounds.{compute_score_total}
use do_deal_ai.Errors.{DodealError}
use do_deal_ai.Redis.{Redis}
use do_deal_ai.Limiter.{CostSettings}
use do_deal_ai.Resilience.{Attempt}
use do_deal_ai.Passes.{LlmResponse, Call, call_model}
use do_deal_ai.Passes.Charged.{call_model-reads}

abbrev pub has_components : List MissingComponent → Bool
has_components [] = false
has_components (_ ∷ _) = true

-- `VagueOutput._check_vagueness_is_self_consistent`.
unfoldable pub is_consistent : VagueOutput → Bool
is_consistent output =
    if output.is_vague
      && not (has_components output.missing_components && is_some output.clarification_prompt)
    then false
    else not (
        not output.is_vague
        && (has_components output.missing_components || is_some output.clarification_prompt))

-- The schema: the fields, read by the parameter, and the rule across them.
unfoldable pub vague_schema : (String → Option VagueOutput) → String → Option VagueOutput
unfolding is_consistent
vague_schema fields text = elim (fields text) [
  | none ↦ none
  | some output ↦ if is_consistent output then some output else none
]

-- The inner `check`, for the components of the type.
abbrev pub names_only : (MissingComponent → Bool) → VagueOutput → Bool
names_only allowed output = all allowed output.missing_components

abbrev pub check_of : Option (MissingComponent → Bool) → Option (VagueOutput → Bool)
check_of none = none
check_of (some allowed) = some (names_only allowed)

-- `none` is the KeyError of a type that `config.allowed_missing_by_type` does not have.
unfoldable pub allowed_components_check : NoteType → TenantConfig → Option (VagueOutput → Bool)
allowed_components_check type config = check_of (config.allowed_missing_by_type type)

abbrev pub is_ok : {E A : Type 0} → Fallible E A → Bool
is_ok (ok a) = true
is_ok (err e) = false

-- `checks_check`.
unfoldable pub checks_check : NoteType → TenantConfig → Checks → Bool
checks_check type config checks = is_ok (validate_checks checks type config)

module _ (redis : Redis) (settings : CostSettings) (timeout : ℕ) (tenant subject : String)
    (client : Bool → ℕ → Attempt (Unit {0}) LlmResponse) (config : TenantConfig)
    (type : NoteType) where
  open redis use {Store}

  -- The answer of the pass and the store after it.
  abbrev pub Detected : Type 0
  Detected = Fallible DodealError (VagueOutput × LlmResponse) × Store

  abbrev pub detect_with :
      (String → Option VagueOutput)
      → Bool
      → Call
      → Call
      → Store
      → Option (VagueOutput → Bool)
      → Option Detected
  detect_with fields reprompt first second s none = none
  detect_with fields reprompt first second s (some check) = some (
      call_model redis settings timeout tenant subject client (vague_schema fields) check reprompt
        first second s)

  -- `none` is the KeyError, before anything is sent.
  unfoldable pub detect_vagueness :
      (String → Option VagueOutput) → Bool → Call → Call → Store → Option Detected
  unfolding vague_schema allowed_components_check
  detect_vagueness fields reprompt first second s =
      detect_with fields reprompt first second s (allowed_components_check type config)

  unfoldable pub score_note :
      (String → Option Checks)
      → Bool
      → Call
      → Call
      → Store
      → Fallible DodealError (Checks × LlmResponse) × Store
  unfolding checks_check
  score_note schema reprompt first second s =
      call_model redis settings timeout tenant subject client schema (checks_check type config)
        reprompt first second s

  ok_only :
      (checks : Checks)
      → checks_check type config checks ≡ true
      → validate_checks checks type config ≡ ok tt
  unfolding checks_check
  ok_only checks h = from_ok (validate_checks checks type config) h
    where
      from_ok : {E : Type 0} (r : Fallible E (Unit {0})) → is_ok r ≡ true → r ≡ ok tt
      from_ok (ok a) h = refl
      from_ok (err e) h = absurd (cc h)

  -- A scoring pass that answers is scored: whatever the model wrote, under rising bands and where some
  -- weight applies to the type, the answers that the pass returns have a score.
  pub score_note-scored :
      (schema : String → Option Checks) (reprompt : Bool) (first second : Call) (s s' : Store)
      (checks : Checks) (r : LlmResponse)
      → HasBands config.band_boundaries
      → 0 < denominator_of type config
      → score_note schema reprompt first second s ≡ (ok (checks, r), s')
      → (score : NoteScore) × (compute_score checks type config ≡ ok score)
  unfolding score_note
  score_note-scored schema reprompt first second s s' checks r bands weighed h =
      let (whole, decoded, good) =
        call_model-reads redis settings timeout tenant subject client schema
          (checks_check type config) reprompt first second s s' checks r h in
      let answered = (validate_checks_iff checks type config).0 (ok_only checks good) in
      let scored = compute_score_total checks type config bands answered weighed in
      (scored.0, scored.1)

  consistent_schema :
      (fields : String → Option VagueOutput) (text : String) (output : VagueOutput)
      → vague_schema fields text ≡ some output
      → is_consistent output ≡ true
  unfolding vague_schema
  consistent_schema fields text output h = elim (Option-cases (fields text)) [
    | inl e ↦ absurd (ground (arith, e, h))
    | inr (o, e) ↦ elim (Bool-cases (is_consistent o)) [
      | inl good ↦
          let same : o ≡ output = ground (arith, e, good, h) in
          subst (λ (x : VagueOutput). is_consistent x ≡ true) same good
      | inr bad ↦ absurd (ground (arith, e, bad, h))
    ]
  ]

  -- An answer that calls the note vague names what is missing and asks a question, one that does not
  -- has neither, and all that is named may be missing.
  abbrev pub IsUsable : (MissingComponent → Bool) → VagueOutput → Type 0
  IsUsable allowed output =
      ((output.is_vague ≡ true) ↔ (has_components output.missing_components ≡ true))
      × ((output.is_vague ≡ true) ↔ (is_some output.clarification_prompt ≡ true))
      × (all allowed output.missing_components ≡ true)

  detect_with-IsUsable :
      (allowed : Option (MissingComponent → Bool)) (fields : String → Option VagueOutput)
      (reprompt : Bool) (first second : Call) (s s' : Store) (output : VagueOutput)
      (r : LlmResponse)
      → detect_with fields reprompt first second s (check_of allowed) ≡ some (ok (output, r), s')
      → (named : MissingComponent → Bool) × (allowed ≡ some named) × IsUsable named output
  unfolding is_consistent
  detect_with-IsUsable none fields reprompt first second s s' output r h = absurd (cc h)
  detect_with-IsUsable (some allowed) fields reprompt first second s s' output r h =
      let (whole, decoded, good) =
        call_model-reads redis settings timeout tenant subject client (vague_schema fields)
          (names_only allowed) reprompt first second s s' output r (some-injective _ _ h) in
      let consistent = consistent_schema fields r.text output decoded in
      (
        allowed,
        refl,
        ((λ v. ground arith, λ v. ground arith), (λ v. ground arith, λ v. ground arith), good),
      )

  -- The answers that the vagueness pass returns are usable: whatever the model wrote, the note is
  -- called vague exactly where a missing component is named and exactly where there is a question, and
  -- the rubric has the note's type and lets it miss every component that is named.
  pub detect_vagueness-IsUsable :
      (fields : String → Option VagueOutput) (reprompt : Bool) (first second : Call) (s s' : Store)
      (output : VagueOutput) (r : LlmResponse)
      → detect_vagueness fields reprompt first second s ≡ some (ok (output, r), s')
      → (named : MissingComponent → Bool) × (config.allowed_missing_by_type type ≡ some named)
        × IsUsable named output
  unfolding detect_vagueness allowed_components_check
  detect_vagueness-IsUsable = detect_with-IsUsable (config.allowed_missing_by_type type)
