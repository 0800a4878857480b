-- ===== src/Providers/Fallback.antt =====
-- When the second provider is asked, and what a provider's breaker counts
-- (src/dodeal_ai/core/llm/fallback.py and src/dodeal_ai/core/llm/openai_compatible.py).
use do_deal_ai.Prelude.{
  ℕ, ◌≡◌, refl, sym, ◌⊎◌, inl, inr, ◌↔◌, Bool, true, false, Bool-cases, none, some, Option, ◌==◌,
  Fallible, err, ok, arith, String,
}
use mathlib.Core.Path.{subst}
use do_deal_ai.Breaker.{CircuitBreaker, admit}
use do_deal_ai.Passes.{LlmResponse}
use do_deal_ai.Providers.{
  ProviderError, HttpResponse, Completion, Sending, pool_timeout, timeout, connect_error,
  protocol_error, replied, status_error, post, parsed, parse_body, parse_text, Exchange,
  after_admit, or_second, complete, complete_either,
}

-- The failures with no answer at all behind them.
abbrev pub GaveNothing : Sending → Type 0
GaveNothing pool_timeout = ⊥
GaveNothing timeout = ⊥
GaveNothing connect_error = Unit
GaveNothing protocol_error = ⊥
GaveNothing (replied response) = (response.status ≡ 429) ⊎ (response.status ≡ 503)

-- A result that the first provider's client keeps.
abbrev IsKept : Fallible ProviderError LlmResponse → Type 0
IsKept (ok response) = Unit
IsKept (err e) = e.fallback_eligible ≡ false

abbrev IsPassedOn : Fallible ProviderError LlmResponse → Type 0
IsPassedOn (ok response) = ⊥
IsPassedOn (err e) = e.fallback_eligible ≡ true

status_error-eligible_iff :
    (status : ℕ)
    → ((status_error status).fallback_eligible ≡ true) ↔ ((status ≡ 429) ⊎ (status ≡ 503))
unfolding status_error
status_error-eligible_iff status = (ground arith, ground arith)

sending_cases :
    (s : Sending)
    → (GaveNothing s × IsPassedOn (parsed (post s))) ⊎ (¬ GaveNothing s × IsKept (parsed (post s)))
unfolding post
sending_cases pool_timeout = inr ((λ h. h), refl)
sending_cases timeout = inr ((λ h. h), refl)
sending_cases connect_error = inl (tt, refl)
sending_cases protocol_error = inr ((λ h. h), refl)
sending_cases (replied response) = by_status response (Bool-cases (response.status == 200))
  where
    text_kept :
        (r : HttpResponse) (body : Completion) (text : Option String)
        → IsKept (parse_text r body text)
    text_kept r body none = refl
    text_kept r body (some text) = tt

    body_kept : (r : HttpResponse) (body : Option Completion) → IsKept (parse_body r body)
    body_kept r none = refl
    body_kept r (some body) = text_kept r body (body.text)

    not_refused : (r : HttpResponse) → (r.status == 200) ≡ true → ¬ GaveNothing (replied r)
    not_refused r fine (inl e) = ground (arith, fine, e)
    not_refused r fine (inr e) = ground (arith, fine, e)

    by_status :
        (r : HttpResponse)
        → ((r.status == 200) ≡ true) ⊎ ((r.status == 200) ≡ false)
        → (GaveNothing (replied r) × IsPassedOn (parsed (post (replied r))))
          ⊎ (¬ GaveNothing (replied r) × IsKept (parsed (post (replied r))))
    by_status r (inl fine) = inr (not_refused r fine, rw fine (body_kept r r.body))
    by_status r (inr failed) = elim (Bool-cases (status_error r.status).fallback_eligible) [
      | inl passed_on ↦ inl ((status_error-eligible_iff r.status).0 passed_on, rw failed passed_on)
      | inr kept ↦
          inr ((λ h. let e = (status_error-eligible_iff r.status).1 h in cc), rw failed kept)
    ]

stopped-IsPassedOn :
    (x : Exchange) (p : Bool × CircuitBreaker) → p.0 ≡ false → IsPassedOn (after_admit x p).0
stopped-IsPassedOn x (false, b) h = refl
stopped-IsPassedOn x (true, b) h = absurd (cc h)

-- A call that the breaker lets in has the result of its sending.
let_in-result :
    (x : Exchange) (p : Bool × CircuitBreaker)
    → p.0 ≡ true
    → (after_admit x p).0 ≡ parsed (post x.sending)
let_in-result x (true, b) h = refl
let_in-result x (false, b) h = absurd (cc h)

module _ (second : Exchange) (behind : CircuitBreaker) where
  or_second-IsKept :
      (r : Fallible ProviderError LlmResponse × CircuitBreaker)
      → IsKept r.0
      → or_second second behind r ≡ (r.0, (r.1, behind))
  or_second-IsKept (ok response, b) h = refl
  or_second-IsKept (err e, b) h = rw h refl

  or_second-IsPassedOn :
      (r : Fallible ProviderError LlmResponse × CircuitBreaker)
      → IsPassedOn r.0
      → or_second second behind r ≡ ((complete second behind).0, (r.1, (complete second behind).1))
  or_second-IsPassedOn (ok response, b) h = absurd h
  or_second-IsPassedOn (err e, b) h = rw h refl

-- A provider that gave no response body, or whose breaker let nothing be sent.
abbrev pub GaveNoBody : Exchange → CircuitBreaker → Type 0
GaveNoBody x b = ((admit x.arrives b).0 ≡ false) ⊎ GaveNothing x.sending

module _ (first second : Exchange) (b behind : CircuitBreaker) where
  -- The second provider is asked exactly where the first gave no response body: no connection, a 429, a
  -- 503, or its breaker was open. Then the result and the second breaker are those of the second call;
  -- else, whatever a timeout, another status or an unreadable 200 left, the first result stands and the
  -- second provider's breaker is as it was. The first breaker ends the same both ways.
  pub complete_either_lem :
      (GaveNoBody first b
        × (complete_either first second b behind
            ≡ ((complete second behind).0, ((complete first b).1, (complete second behind).1))))
      ⊎ (¬ GaveNoBody first b
          × (complete_either first second b behind
              ≡ ((complete first b).0, ((complete first b).1, behind))))
  unfolding complete_either complete
  complete_either_lem = elim (Bool-cases (admit first.arrives b).0) [
    | inr stopped ↦ inl (
      inl stopped,
      or_second-IsPassedOn second behind (complete first b)
          (stopped-IsPassedOn first (admit first.arrives b) stopped),
    )
    | inl let_in ↦ elim (sending_cases first.sending) [
      | inl (nothing, passed_on) ↦ inl (
        inr nothing,
        or_second-IsPassedOn second behind (complete first b)
            (subst IsPassedOn (sym (let_in-result first (admit first.arrives b) let_in)) passed_on),
      )
      | inr (something, kept) ↦ inr (
        no_reason let_in something,
        or_second-IsKept second behind (complete first b)
            (subst IsKept (sym (let_in-result first (admit first.arrives b) let_in)) kept),
      )
    ]
  ]
    where
      no_reason :
          (admit first.arrives b).0 ≡ true → ¬ GaveNothing first.sending → ¬ GaveNoBody first b
      no_reason let_in something (inl stopped) = absurd (cc (let_in, stopped))
      no_reason let_in something (inr nothing) = something nothing
