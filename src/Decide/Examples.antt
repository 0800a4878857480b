-- ===== src/Decide/Examples.antt =====
-- Decisions on concrete notes (src/dodeal_ai/units/structured_intelligence/decide.py).
use do_deal_ai.Prelude.{ℕ, ◌≡◌, ◌↔◌, true, false, none, some, []}
use do_deal_ai.Schemas.{NoteScore, NoteAnalysis, poor, PromptWithheld}
use do_deal_ai.TenantConfig.Default.{default_config}
use do_deal_ai.Decide.{Guards, withheld_reason, decide}
use do_deal_ai.Decide.Reasons.{Because, withheld_reason_iff, MaySend, prompt_sent-decide}

abbrev score_of_total : ℕ → NoteScore
score_of_total n = record { total = n; band = poor; denominator = 80; components = [] }

abbrev vague : NoteAnalysis
vague = record {
  analysed_type = none;
  is_vague = some true;
  missing_components = [];
  clarification_prompt = some "When is the next call?";
  reasoning = none;
}

abbrev fresh : Guards
fresh = record { attempts = 0; rate_allowed = true; rate_count = 2 }

abbrev busy : Guards
busy = record { attempts = 0; rate_allowed = true; rate_count = 3 }

withheld_reason_iff_example :
    (withheld_reason vague busy default_config false ≡ some PromptWithheld.rate_limited)
    ↔ Because vague busy default_config false PromptWithheld.rate_limited
withheld_reason_iff_example =
    withheld_reason_iff vague busy default_config false PromptWithheld.rate_limited

prompt_sent-decide_example :
    ((decide (score_of_total 45) vague fresh default_config false).prompt_sent ≡ true)
    ↔ MaySend (score_of_total 45) vague fresh default_config false
prompt_sent-decide_example = prompt_sent-decide (score_of_total 45) vague fresh default_config false
