-- ===== src/Passes/Charged.antt =====
-- How a pass goes, call by call (src/dodeal_ai/units/structured_intelligence/llm_call.py).
use do_deal_ai.Prelude.{
  ◌≡◌, ◌+◌, ◌==◌, if◌then◌else◌, refl, Bool, true, false, Option, none, some, String, Fallible, err,
  ok, ℕ, Bool-cases, Option-cases, ap, ◌∙◌, arith, inl, inr,
}
use mathlib.Core.Path.{subst}
use do_deal_ai.Errors.{DodealError, model_unavailable, malformed_output}
use do_deal_ai.Redis.{Redis}
use do_deal_ai.Limiter.{CostSettings}
use do_deal_ai.Limiter.Tokens.{TokensCharged, enforce_token_cost-TokensCharged}
use do_deal_ai.Resilience.{Attempt, call_with_watchdog}
use do_deal_ai.Passes.{
  LlmResponse, Call, is_cut_off, never_retried, parse_output, charge_call, after_call,
  complete_once, parsed_or_malformed, after_second, after_parse, after_first, call_model,
}

module _ (redis : Redis) (settings : CostSettings) (timeout : ℕ) (tenant subject : String)
    (client : Bool → ℕ → Attempt (Unit {0}) LlmResponse) {M : Type 0} (decode : String → Option M)
    (check : M → Bool) where
  open redis use {Store}

  -- What the client answers to the prompt, with the tail or without, in one attempt.
  abbrev pub answer_to : Bool → Call → Fallible (Unit {0}) LlmResponse
  answer_to tailed made =
      (call_with_watchdog (never_retried timeout) (client tailed) made.at).result

  -- What an answer's charge leaves: the usage of an answer that reports some is on both token counters
  -- where the store was asked, nothing else changes, and without usage nothing does.
  abbrev pub IsCharged : Call → LlmResponse → Store → Store → Type 0
  IsCharged made r s s' =
      if r.input_tokens + r.output_tokens == 0
      then s' ≡ s
      else TokensCharged redis made.charging.link made.charging.at tenant subject
          (r.input_tokens + r.output_tokens) settings.cost_window_seconds s s'

  charge_call-IsCharged :
      (made : Call) (r : LlmResponse) (s : Store)
      → IsCharged made r s
          (charge_call redis settings timeout tenant subject client made.charging r s)
  unfolding charge_call
  charge_call-IsCharged made r s = elim (Bool-cases (r.input_tokens + r.output_tokens == 0)) [
    | inl free ↦ rw free refl
    | inr paid ↦ rw paid (
        enforce_token_cost-TokensCharged redis settings made.charging.link made.charging.at tenant
          subject r.input_tokens r.output_tokens s)
  ]

  abbrev charged : Call → LlmResponse → Store → Store
  charged made = charge_call redis settings timeout tenant subject client made.charging

  abbrev pub ReadsAs : LlmResponse → Option M → Type 0
  ReadsAs response parsed = parse_output decode check response ≡ parsed

  -- The courses a pass can take from a store, with what it answers and the store it leaves.
  pub data Course (reprompt : Bool) (first second : Call) (s : Store)
      : Fallible DodealError (M × LlmResponse) × Store → Type 0 where
    no_answer :
        answer_to false first ≡ err tt → Course reprompt first second s (err model_unavailable, s)
    good_at_once :
        (r : LlmResponse) (m : M) (s1 : Store)
        → answer_to false first ≡ ok r
        → ReadsAs r (some m)
        → IsCharged first r s s1
        → Course reprompt first second s (ok (m, r), s1)
    not_again :
        (r : LlmResponse) (s1 : Store)
        → answer_to false first ≡ ok r
        → ReadsAs r none
        → IsCharged first r s s1
        → reprompt ≡ false
        → Course reprompt first second s (err malformed_output, s1)
    no_second_answer :
        (r : LlmResponse) (s1 : Store)
        → answer_to false first ≡ ok r
        → ReadsAs r none
        → IsCharged first r s s1
        → reprompt ≡ true
        → answer_to true second ≡ err tt
        → Course reprompt first second s (err model_unavailable, s1)
    malformed_twice :
        (r r' : LlmResponse) (s1 s2 : Store)
        → answer_to false first ≡ ok r
        → ReadsAs r none
        → IsCharged first r s s1
        → reprompt ≡ true
        → answer_to true second ≡ ok r'
        → ReadsAs r' none
        → IsCharged second r' s1 s2
        → Course reprompt first second s (err malformed_output, s2)
    good_in_the_end :
        (r r' : LlmResponse) (m : M) (s1 s2 : Store)
        → answer_to false first ≡ ok r
        → ReadsAs r none
        → IsCharged first r s s1
        → reprompt ≡ true
        → answer_to true second ≡ ok r'
        → ReadsAs r' (some m)
        → IsCharged second r' s1 s2
        → Course reprompt first second s (ok (m, r'), s2)

  module _ (reprompt : Bool) (first second : Call) (s : Store) where
    of_second :
        (r r' : LlmResponse) (parsed : Option M)
        → answer_to false first ≡ ok r
        → ReadsAs r none
        → reprompt ≡ true
        → answer_to true second ≡ ok r'
        → ReadsAs r' parsed
        → Course reprompt first second s (
            parsed_or_malformed redis settings timeout tenant subject client decode check r' parsed
              (charged second r' (charged first r s)))
    of_second r r' none a b c d e =
        malformed_twice r r' _ _ a b (charge_call-IsCharged first r s) c d e
          (charge_call-IsCharged second r' (charged first r s))
    of_second r r' (some m) a b c d e =
        good_in_the_end r r' m _ _ a b (charge_call-IsCharged first r s) c d e
          (charge_call-IsCharged second r' (charged first r s))

    of_again :
        (r : LlmResponse) (answer : Fallible (Unit {0}) LlmResponse)
        → answer_to false first ≡ ok r
        → ReadsAs r none
        → reprompt ≡ true
        → answer_to true second ≡ answer
        → Course reprompt first second s (
            after_second redis settings timeout tenant subject client decode check (
              after_call redis settings timeout tenant subject client second.charging answer
                (charged first r s)))
    of_again r (err e) a b c d = no_second_answer r _ a b (charge_call-IsCharged first r s) c d
    of_again r (ok r') a b c d = of_second r r' (parse_output decode check r') a b c d refl

    of_parse :
        (r : LlmResponse) (parsed : Option M) (allowed : Bool)
        → answer_to false first ≡ ok r
        → ReadsAs r parsed
        → reprompt ≡ allowed
        → Course reprompt first second s (
            after_parse redis settings timeout tenant subject client decode check allowed second r
              parsed
              (charged first r s))
    unfolding complete_once
    of_parse r (some m) allowed a b c = good_at_once r m _ a b (charge_call-IsCharged first r s)
    of_parse r none true a b c = of_again r (answer_to true second) a b c refl
    of_parse r none false a b c = not_again r _ a b (charge_call-IsCharged first r s) c

    of_first :
        (answer : Fallible (Unit {0}) LlmResponse)
        → answer_to false first ≡ answer
        → Course reprompt first second s (
            after_first redis settings timeout tenant subject client decode check reprompt second
              (after_call redis settings timeout tenant subject client first.charging answer s))
    of_first (err e) a = no_answer a
    of_first (ok r) a = of_parse r (parse_output decode check r) reprompt a refl refl

    -- A pass makes one call, and a second, with the stricter tail, only where the first answer is
    -- malformed and the judgement may reprompt; it never makes a third. What it returns is the last
    -- answer and what that answer reads as; a malformed last answer is malformed_output, and no answer
    -- is model_unavailable. Each answer that reports usage is charged, in order, the discarded one too:
    -- where the store is asked, with a reply or without, both token counters are higher by the answer's
    -- tokens, with an end of the window (kept if it runs). An answer without usage, or whose charge is
    -- refused before it is sent, changes nothing; and nothing else in the store is touched.
    pub call_model-Course : Course reprompt first second s (
        call_model redis settings timeout tenant subject client decode check reprompt first second
          s)
    unfolding call_model complete_once
    call_model-Course = of_first (answer_to false first) refl

  abbrev Reads : Fallible DodealError (M × LlmResponse) × Store → Type 0
  Reads (err e, s) = Unit
  Reads (ok (m, r), s) = ReadsAs r (some m)

  Course-Reads :
      (reprompt : Bool) (first second : Call) (s : Store)
      (answer : Fallible DodealError (M × LlmResponse) × Store)
      → Course reprompt first second s answer
      → Reads answer
  Course-Reads reprompt first second s _ (no_answer a) = tt
  Course-Reads reprompt first second s _ (good_at_once r m s1 a b p) = b
  Course-Reads reprompt first second s _ (not_again r s1 a b p c) = tt
  Course-Reads reprompt first second s _ (no_second_answer r s1 a b p c d) = tt
  Course-Reads reprompt first second s _ (malformed_twice r r' s1 s2 a b p c d e q) = tt
  Course-Reads reprompt first second s _ (good_in_the_end r r' m s1 s2 a b p c d e q) = e

  parsed_lem :
      (r : LlmResponse) (m : M)
      → ReadsAs r (some m)
      → (is_cut_off r.finish_reason ≡ false) × (decode r.text ≡ some m) × (check m ≡ true)
  unfolding parse_output
  parsed_lem r m h = elim (Bool-cases (is_cut_off r.finish_reason)) [
    | inl cut ↦ absurd (ground (arith, cut, h))
    | inr whole ↦ elim (Option-cases (decode r.text)) [
      | inl e ↦ absurd (ground (arith, whole, e, h))
      | inr (m', e) ↦ elim (Bool-cases (check m')) [
        | inl good ↦
            let same : m' ≡ m = ground (arith, whole, e, good, h) in
            (whole, e ∙ ap some same, subst (λ (x : M). check x ≡ true) same good)
        | inr bad ↦ absurd (ground (arith, whole, e, bad, h))
      ]
    ]
  ]

  -- What a pass returns is a whole answer that fits the schema and passes the check.
  pub call_model-reads :
      (reprompt : Bool) (first second : Call) (s s' : Store) (m : M) (r : LlmResponse)
      → call_model redis settings timeout tenant subject client decode check reprompt first second s
        ≡ (ok (m, r), s')
      → (is_cut_off r.finish_reason ≡ false) × (decode r.text ≡ some m) × (check m ≡ true)
  call_model-reads reprompt first second s s' m r h = parsed_lem r m (
      subst Reads h
        (Course-Reads reprompt first second s _ (call_model-Course reprompt first second s)))
