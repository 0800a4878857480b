-- ===== src/Pipeline/Length.antt =====
-- The length gate and its fixed question
-- (src/dodeal_ai/units/structured_intelligence/pipeline.py, from `_fixed_clarification_prompt` to
-- `_fixed_question`).
--
-- What the gate uses of Python's `str` depends on the Unicode tables, so it is a parameter. The source
-- folds the three short-note tables once, when a configuration is made; here a table is folded where it
-- is read.
pub mod Recognised
pub mod Question
use do_deal_ai.Prelude.{
  ℕ, Bool, true, false, not, ◌&&◌, ◌||◌, Option, none, some, List, [], ◌∷◌, map, String, ltb,
  if◌then◌else◌, length, any, all, keep_if, take, drop,
}
use text.Mathlib.Text.{◌==◌ as str_eq}
use do_deal_ai.Schemas.{
  SuppressedReason, insufficient_evidence, not_scorable, SuppressedDetail, PromptWithheld,
  NoteAnalysis,
}
use do_deal_ai.TenantConfig.{TenantConfig}
use do_deal_ai.Decide.{withheld_reason}
use do_deal_ai.Redis.{Redis}
use do_deal_ai.Redis.Links.{Link}
use do_deal_ai.State.{read_attempts, take_prompt_slots}
use do_deal_ai.Pipeline.Limits.{limits_of}

-- `text.casefold()`, `text.strip()`, `text.split()`, `text.rstrip(chars)`, `len(text)`,
-- `text.isdigit()`, and the search for a character of the Arabic block.
pub record Text : Type 0 where
  pub casefold : String → String
  pub strip : String → String
  pub split : String → List String
  pub rstrip : String → String → String
  pub len : String → ℕ
  pub isdigit : String → Bool
  pub has_arabic : String → Bool

-- `_TRAILING_PUNCTUATION`, its last three the Arabic comma, semicolon and question mark.
abbrev pub trailing_punctuation : String
trailing_punctuation = ".,!?;:…،\u{61b}\u{61f}"

-- The two texts of the question.
pub record FixedQuestions : Type 0 where
  pub arabic : String
  pub english : String

-- `bool(text)`.
abbrev pub is_empty : String → Bool
is_empty text = str_eq text ""

-- `words[:n] == opening` for lists of words.
abbrev pub same_words : List String → List String → Bool
same_words [] [] = true
same_words [] (_ ∷ _) = false
same_words (_ ∷ _) [] = false
same_words (x ∷ xs) (y ∷ ys) = str_eq x y && same_words xs ys

abbrev pub has_words : List String → Bool
has_words [] = false
has_words (_ ∷ _) = true

module _ (str : Text) where
  open str use {casefold, strip, split, rstrip, len, isdigit, has_arabic}

  -- `word in table` for a folded table.
  unfoldable pub in_table : List String → String → Bool
  in_table table word = any (λ w. str_eq word (casefold w)) table

  unfoldable pub short_note_words : String → List String
  short_note_words text =
      keep_if (λ w. not (is_empty w))
        (map (λ word. rstrip word trailing_punctuation) (split (casefold text)))

  unfoldable pub is_short_note_code : TenantConfig → String → Bool
  unfolding in_table
  is_short_note_code config word =
      let bare = rstrip word "0123456789" in
      not (is_empty bare) && in_table config.short_note_codes bare

  -- One turn of the loop over the phrases.
  unfoldable pub opens_with : TenantConfig → List String → String → Bool
  unfolding in_table
  opens_with config words phrase =
      let opening = split (casefold phrase) in
      same_words (take words (length opening)) opening
      && all (in_table config.short_note_fillers) (drop words (length opening))

  -- A word that may stand in a note of codes.
  unfoldable pub is_code_or_filler : TenantConfig → String → Bool
  unfolding is_short_note_code in_table
  is_code_or_filler config word =
      is_short_note_code config word || isdigit word || in_table config.short_note_fillers word

  unfoldable pub recognised_words : TenantConfig → List String → Bool
  unfolding opens_with is_code_or_filler is_short_note_code
  recognised_words config words =
      if not (has_words words)
      then false
      else if any (opens_with config words) config.short_note_phrases
      then true
      else any (is_short_note_code config) words && all (is_code_or_filler config) words

  unfoldable pub is_recognised_short_note : TenantConfig → String → Bool
  unfolding recognised_words short_note_words
  is_recognised_short_note config text = recognised_words config (short_note_words text)

  unfoldable pub below_floor : TenantConfig → String → Bool
  below_floor config text =
      ltb (len text) config.min_note_chars || ltb (length (split text)) config.min_note_tokens

  unfoldable pub recognised_short : TenantConfig → String → Bool
  unfolding below_floor is_recognised_short_note
  recognised_short config note =
      let text = strip note in below_floor config text && is_recognised_short_note config text

  unfoldable pub length_gate : TenantConfig → String → Option (SuppressedReason × SuppressedDetail)
  unfolding below_floor is_recognised_short_note
  length_gate config note =
      let text = strip note in
      if below_floor config text
      then if is_recognised_short_note config text
        then none
        else some (insufficient_evidence, SuppressedDetail.note_too_short)
      else if ltb config.max_note_chars (len text)
      then some (not_scorable, SuppressedDetail.note_too_long)
      else none

  unfoldable pub fixed_clarification_prompt : FixedQuestions → String → String
  fixed_clarification_prompt questions text =
      if has_arabic text then questions.arabic else questions.english

-- `detail is SuppressedDetail.NOTE_TOO_SHORT`.
abbrev pub is_too_short : SuppressedDetail → Bool
is_too_short SuppressedDetail.note_too_short = true
is_too_short SuppressedDetail.system_event = false
is_too_short SuppressedDetail.unclassifiable = false
is_too_short SuppressedDetail.note_too_long = false

-- `NoteAnalysis(clarification_prompt=prompt)`.
abbrev pub analysis_asking : String → NoteAnalysis
analysis_asking prompt = record {
  analysed_type = none;
  is_vague = none;
  missing_components = [];
  clarification_prompt = some prompt;
  reasoning = none;
}

-- One call of the store: when, and how it goes.
pub record Trip : Type 0 where
  pub at : ℕ
  pub link : Link

module _ (redis : Redis) (config : TenantConfig) where
  open redis use {Store}

  -- The prompt is already in the note's script. The first trip reads the attempts, the second takes
  -- the slots.
  unfoldable pub fixed_question :
      SuppressedDetail
      → String
      → Bool
      → Trip
      → Trip
      → String
      → ℕ
      → String
      → Store
      → (Option String × Option PromptWithheld) × Store
  fixed_question detail prompt resubmission reading taking tenant note_id subject s =
      if not (is_too_short detail)
      then ((none, none), s)
      else if resubmission
      then ((some prompt, some PromptWithheld.resubmission), s)
      else (let attempts = read_attempts redis reading.link reading.at tenant note_id s in
          let (guards, s') =
            take_prompt_slots redis (limits_of config) taking.link taking.at tenant note_id subject
              attempts s in
          ((some prompt, withheld_reason (analysis_asking prompt) guards config false), s'))
