-- ===== src/Providers/Evidence.antt =====
-- What a provider's breaker makes of a call (src/dodeal_ai/core/llm/openai_compatible.py).
use do_deal_ai.Prelude.{
  ◌≤◌, ◌≡◌, refl, ◌⊎◌, inl, inr, Bool, true, false, ◌||◌, leb, Bool-cases, ◌==◌, arith, err,
}
use do_deal_ai.Breaker.{CircuitBreaker, Outcome, admit, settle, run, record_failure}
use do_deal_ai.Breaker.Counting.{settle-failures, success-failures}
use do_deal_ai.Providers.{
  HttpResponse, Sending, pool_timeout, timeout, connect_error, protocol_error, replied,
  status_error, post, outcome_of, Exchange, after_admit, complete,
}

-- The four failures that speak against the provider.
abbrev pub IsEvidence : Sending → Type 0
IsEvidence pool_timeout = ⊥
IsEvidence timeout = Unit
IsEvidence connect_error = Unit
IsEvidence protocol_error = ⊥
IsEvidence (replied response) = (response.status ≡ 429) ⊎ (500 ≤ response.status)

-- A reply with status 200, readable or not.
abbrev pub IsAnswer : Sending → Type 0
IsAnswer pool_timeout = ⊥
IsAnswer timeout = ⊥
IsAnswer connect_error = ⊥
IsAnswer protocol_error = ⊥
IsAnswer (replied response) = response.status ≡ 200

-- What a sending is, as its outcome tells.
abbrev Told : Sending → Outcome → Type 0
Told s Outcome.counted = IsEvidence s
Told s Outcome.success = IsAnswer s
Told s Outcome.uncounted = ¬ IsEvidence s × ¬ IsAnswer s
Told s Outcome.other_error = ¬ IsEvidence s × ¬ IsAnswer s

-- Below 500 and neither 200 nor 429.
other_status :
    (r : HttpResponse)
    → (r.status == 200) ≡ false
    → (r.status == 429) ≡ false
    → leb 500 r.status ≡ false
    → ¬ IsEvidence (replied r) × ¬ IsAnswer (replied r)
other_status r not_ok not_quota not_server = (
  (λ h. elim h [ inl e ↦ ground (arith, not_quota, e) | inr e ↦ ground (arith, not_server, e) ]),
  λ h. ground (arith, not_ok, h),
)

failed-Told :
    (r : HttpResponse)
    → (r.status == 200) ≡ false
    → Told (replied r) (outcome_of (err (status_error r.status)))
unfolding outcome_of status_error
failed-Told r not_ok = elim (Bool-cases (r.status == 401 || r.status == 403)) [
  | inl auth ↦ rw auth (other_status r not_ok (ground (arith, auth)) (ground (arith, auth)))
  | inr not_auth ↦ elim (Bool-cases (r.status == 429)) [
    | inl quota ↦ rw (not_auth, quota) (inl (ground (arith, quota)))
    | inr not_quota ↦ elim (Bool-cases (leb 500 r.status)) [
      | inl server ↦ rw (not_auth, not_quota, server) (inr (ground (arith, server)))
      | inr not_server ↦ elim (Bool-cases (r.status == 400)) [
        | inl bad ↦
            rw (not_auth, not_quota, not_server, bad) (other_status r not_ok not_quota not_server)
        | inr not_bad ↦
            rw (not_auth, not_quota, not_server, not_bad)
              (other_status r not_ok not_quota not_server)
      ]
    ]
  ]
]

post-Told : (s : Sending) → Told s (outcome_of (post s))
unfolding post outcome_of
post-Told pool_timeout = ((λ h. h), λ h. h)
post-Told timeout = tt
post-Told connect_error = tt
post-Told protocol_error = ((λ h. h), λ h. h)
post-Told (replied r) = elim (Bool-cases (r.status == 200)) [
  | inl fine ↦ rw fine (ground (arith, fine))
  | inr failed ↦ rw failed (failed-Told r failed)
]

abbrev pub IsMoved : Exchange → CircuitBreaker → CircuitBreaker → Type 0
IsMoved x before after =
    (IsEvidence x.sending × (after ≡ record_failure x.ends before))
    ⊎ ((IsAnswer x.sending × (after.failures ≡ 0))
        ⊎ ((¬ IsEvidence x.sending × ¬ IsAnswer x.sending) × (after.failures ≡ before.failures)))

outcome-IsMoved :
    (x : Exchange) (before : CircuitBreaker) (o : Outcome)
    → Told x.sending o
    → IsMoved x before (settle x.ends o before)
unfolding settle
outcome-IsMoved x before Outcome.success h = inr (inl (h, success-failures x.ends before))
outcome-IsMoved x before Outcome.counted h = inl (h, refl)
outcome-IsMoved x before Outcome.uncounted h = inr (inr (h, (settle-failures x.ends before).0))
outcome-IsMoved x before Outcome.other_error h = inr (inr (h, (settle-failures x.ends before).1))

admitted-IsMoved :
    (x : Exchange) (p : Bool × CircuitBreaker)
    → p.0 ≡ true
    → IsMoved x (run x.meanwhile p.1) (after_admit x p).1
admitted-IsMoved x (true, b) h = outcome-IsMoved x (run x.meanwhile b) _ (post-Told x.sending)
admitted-IsMoved x (false, b) h = absurd (cc h)

-- A call that the provider's breaker lets in counts as a failure there exactly where it times out, finds
-- no connection, or is answered with a 429 or a 5xx; an answer with status 200 clears the count, also
-- where it cannot be read; and anything else, a full connection pool too, leaves the count as it is.
-- What the count was is what the calls that went through meanwhile made of it.
pub complete-IsMoved :
    (x : Exchange) (b : CircuitBreaker)
    → (admit x.arrives b).0 ≡ true
    → IsMoved x (run x.meanwhile (admit x.arrives b).1) (complete x b).1
unfolding complete
complete-IsMoved x b h = admitted-IsMoved x (admit x.arrives b) h
