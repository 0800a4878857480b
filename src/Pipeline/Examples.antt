-- ===== src/Pipeline/Examples.antt =====
-- A question for a vague note (src/dodeal_ai/units/structured_intelligence/pipeline.py).
use do_deal_ai.Prelude.{
  ◌≤◌, ◌<◌, ◌≡◌, ◌≢◌, ◌↔◌, ◌⊎◌, refl, true, false, none, some, List, [], ◌∷◌, String, length,
}
use do_deal_ai.Schemas.{
  NoteScore, NoteAnalysis, poor, insufficient_evidence, not_scorable, SuppressedDetail,
}
use do_deal_ai.TenantConfig.Default.{default_config}
use do_deal_ai.Redis.Links.{answered, refused}
use do_deal_ai.Redis.Table.{empty, table}
use do_deal_ai.Pipeline.{decision_on}
use do_deal_ai.Pipeline.Ascii.{ascii, letters}
use do_deal_ai.Pipeline.Length.{
  Trip, recognised_words, length_gate, recognised_short, below_floor, fixed_question,
}
use do_deal_ai.Pipeline.Length.Recognised.{Outcome, recognised_words_iff, length_gate_iff}
use do_deal_ai.Pipeline.Length.Question.{AskedFairly, fixed_question_lem}
use do_deal_ai.Pipeline.Questions.{SlotPerQuestion, slot_per_question}

abbrev low_score : NoteScore
low_score = record { total = 45; band = poor; denominator = 80; components = [] }

abbrev asking : NoteAnalysis
asking = record {
  analysed_type = none;
  is_vague = some true;
  missing_components = [];
  clarification_prompt = some "When is the next call?";
  reasoning = none;
}

slot_per_question_example :
    let (decision, s') =
      decision_on table answered 50 "acme" 7 "ann" 0 low_score asking default_config false refused
        empty in
    SlotPerQuestion table default_config low_score asking false refused 50 "acme" 7 "ann" 0 empty
      decision.prompt_sent s'
slot_per_question_example =
    slot_per_question table default_config low_score asking false refused 50 "acme" 7 "ann" 0 empty

-- "not interested tmrw": a phrase of the default table and a filler behind it.
abbrev phrase_words : List String
phrase_words = "not" ∷ "interested" ∷ "tmrw" ∷ []

recognised_words_iff_example :
    (recognised_words ascii default_config phrase_words ≡ true)
    ↔ ((phrase_words ≢ []) × Outcome ascii default_config phrase_words)
recognised_words_iff_example = recognised_words_iff ascii default_config phrase_words

abbrev short_note : String
short_note = "cb1, tmrw."

length_gate_iff_example :
    ((length_gate ascii default_config short_note ≡ none) ↔ (
      (recognised_short ascii default_config short_note ≡ true)
      ⊎ ((15 ≤ letters (ascii.strip short_note))
          × (3 ≤ length (ascii.split (ascii.strip short_note)))
          × (letters (ascii.strip short_note) ≤ 2000))))
    × ((length_gate ascii default_config short_note
          ≡ some (insufficient_evidence, SuppressedDetail.note_too_short))
        ↔ ((below_floor ascii default_config (ascii.strip short_note) ≡ true)
            × (recognised_short ascii default_config short_note ≡ false)))
    × ((length_gate ascii default_config short_note
          ≡ some (not_scorable, SuppressedDetail.note_too_long))
        ↔ ((below_floor ascii default_config (ascii.strip short_note) ≡ false)
            × (2000 < letters (ascii.strip short_note))))
length_gate_iff_example = length_gate_iff ascii default_config short_note

-- The code with its number and comma is let through, and fillers alone are not.
gate_opens : length_gate ascii default_config short_note ≡ none
unfolding length_gate
gate_opens = refl

gate_shuts :
    length_gate ascii default_config "tmrw pm"
    ≡ some (insufficient_evidence, SuppressedDetail.note_too_short)
unfolding length_gate
gate_shuts = refl

abbrev early : Trip
early = record { at = 10; link = answered }

fixed_question_lem_example :
    AskedFairly table default_config "What was agreed?" early 11 "acme" 7 "ann" empty true false (
      fixed_question table default_config SuppressedDetail.note_too_short "What was agreed?" false
        early
        (record { at = 11; link = answered })
        "acme"
        7
        "ann"
        empty)
fixed_question_lem_example =
    fixed_question_lem table default_config "What was agreed?" early 11 "acme" 7 "ann" empty
      SuppressedDetail.note_too_short false
