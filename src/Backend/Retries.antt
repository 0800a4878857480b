-- ===== src/Backend/Retries.antt =====
-- What is read again (src/dodeal_ai/tools/leads.py, `_get`).
use do_deal_ai.Prelude.{
  ℕ, ◌≤◌, ◌<◌, ◌+◌, ◌∙◌, sym, ap, ==→eq, if◌then◌else◌, ◌≡◌, ◌≢◌, ◌⊎◌, inl, inr, true, Option, none,
  some, [], ◌∷◌, ◌==◌, arith, Fallible, err, Bool-cases,
}
use mathlib.Core.Path.{subst}
use do_deal_ai.Resilience.{Attempt, Ended, wait_for, call_with_watchdog}
use do_deal_ai.Resilience.Bounds.{
  Story, tried_once, tried_twice, IsBefore, call_with_watchdog-Story,
}
use do_deal_ai.Backend.{
  Cause, backend_status, transient_failure, other_failure, Label, ReadPolicy, policy_of,
  backend_retry_delay, typed_failure, get, retry_after_cap, not_found, rejected, unauthorized,
  forbidden,
}

-- A failure that a retry may mend.
abbrev pub IsTransient : Cause → Type 0
IsTransient (backend_status status none) = (status ≡ 429) ⊎ (500 ≤ status)
IsTransient (backend_status status (some wait)) =
    ((status ≡ 429) × (wait ≤ retry_after_cap)) ⊎ (500 ≤ status)
IsTransient transient_failure = Unit
IsTransient other_failure = ⊥

pub delayed-IsTransient :
    (jitter : ℕ) (cause : Cause) (delay : ℕ)
    → backend_retry_delay jitter cause ≡ some delay
    → IsTransient cause
unfolding backend_retry_delay
delayed-IsTransient jitter (backend_status status none) delay h =
    elim (Bool-cases (status == 429)) [
      | inl e ↦ inl (==→eq status 429 e)
      | inr e ↦ inr (ground arith)
    ]
delayed-IsTransient jitter (backend_status status (some wait)) delay h =
    elim (Bool-cases (status == 429)) [
      | inl e ↦ inl (==→eq status 429 e, ground arith)
      | inr e ↦ inr (ground arith)
    ]
delayed-IsTransient jitter transient_failure delay h = tt
delayed-IsTransient jitter other_failure delay h = absurd (cc h)

module _ {Raw : Type 0} (policy : ReadPolicy) (transport : ℕ → Attempt Cause Raw) (now : ℕ) where
  abbrev SentSparingly : Ended Cause Raw → Type 0
  SentSparingly w =
      (w.starts ≡ now ∷ [])
      ⊎ ((cause : Cause) × (failed : ℕ) × (second : ℕ) × (w.starts ≡ second ∷ now ∷ [])
          × (wait_for (policy_of policy) (transport 1) now ≡ (err cause, failed))
          × IsTransient cause
          × IsBefore (policy_of policy) transport now policy.deadline second)

  -- A read is sent at most twice, and a second time only after a failure that a retry may mend, with
  -- the wait over before the deadline.
  read-SentSparingly : SentSparingly (call_with_watchdog (policy_of policy) transport now)
  read-SentSparingly = from_story _ (call_with_watchdog-Story (policy_of policy) transport now)
    where
      from_story :
          (w : Ended Cause Raw) → Story (policy_of policy) transport now w → SentSparingly w
      from_story w (tried_once _ starts e) = inl starts
      from_story w (tried_twice _ cause failed delay on first given early starts e) = inr (
        cause,
        failed,
        failed + delay,
        starts,
        first,
        delayed-IsTransient policy.jitter cause delay given,
        early,
      )

  no_second :
      (status : ℕ) (retry_after : Option ℕ)
      → status < 500
      → status ≢ 429
      → IsTransient (backend_status status retry_after)
      → ⊥
  no_second status none b c (inl e) = c e
  no_second status none b c (inr e) = omega arith
  no_second status (some wait) b c (inl e) = c e.0
  no_second status (some wait) b c (inr e) = omega arith

  module _ (status : ℕ) (retry_after : Option ℕ) (failed : ℕ)
      (first : wait_for (policy_of policy) (transport 1) now
        ≡ (err (backend_status status retry_after), failed))
      (refused : 400 ≤ status) (not_server : status < 500) (not_quota : status ≢ 429) where
    abbrev Once : Ended Cause Raw → Type 0
    Once w = (w.starts ≡ now ∷ []) × (w.result ≡ err (backend_status status retry_after))

    once : (w : Ended Cause Raw) → Story (policy_of policy) transport now w → Once w
    once w (tried_once _ starts e) = (starts, ap (λ (p : Fallible Cause Raw × ℕ). p.0) (e ∙ first))
    once w (tried_twice _ cause at delay on first' given early starts e) =
        let same : cause ≡ backend_status status retry_after = cc (sym first' ∙ first) in
        absurd (
          no_second status retry_after not_server not_quota
            (subst IsTransient same (delayed-IsTransient policy.jitter cause delay given)))

    -- A read that the CRM refuses with a 4xx other than 429 is sent once and never again, and fails as
    -- what the status says: not found, unauthorized, forbidden, or rejected.
    pub get-refused :
        (label : Label)
        → ((call_with_watchdog (policy_of policy) transport now).starts ≡ now ∷ [])
          × (get label true policy transport now
              ≡ err (
                  if status == 404
                  then not_found label
                  else if status == 401
                  then unauthorized label
                  else if status == 403
                  then forbidden label
                  else rejected label))
    unfolding get typed_failure
    get-refused label =
        let (starts, result) =
          once (call_with_watchdog (policy_of policy) transport now)
            (call_with_watchdog-Story (policy_of policy) transport now) in
        (starts, rw result (ground arith))
