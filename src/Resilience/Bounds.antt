-- ===== src/Resilience/Bounds.antt =====
-- How often and how long the watchdog tries (src/dodeal_ai/core/resilience.py).
use do_deal_ai.Prelude.{
  ℕ, ◌+◌, ◌≤◌, ◌<◌, ◌≡◌, refl, sym, ◌⊎◌, inl, inr, Bool, true, false, Option, none, some, [], ◌∷◌,
  Fallible, err, ok, arith, Bool-cases, Option-cases,
}
use mathlib.Core.Path.{subst}
use do_deal_ai.Resilience.{
  Attempt, Policy, Ended, wait_for, retry_at, delay_after, is_past, ended, again_at, follow_ups,
  retry_or_end, attempts_from, call_with_watchdog,
}

module _ {E A : Type 0} (policy : Policy E) (operation : ℕ → Attempt E A) (now : ℕ) where
  -- Before the deadline, where there is one.
  abbrev pub IsBefore : Option ℕ → ℕ → Type 0
  IsBefore none at = Unit
  IsBefore (some deadline) at = at < deadline

  -- One attempt, or a first that failed at `failed` and a second that a rule of the caller allowed.
  pub data Story : Ended E A → Type 0 where
    tried_once :
        (w : Ended E A)
        → w.starts ≡ now ∷ []
        → (w.result, w.finished) ≡ wait_for policy (operation 1) now
        → Story w
    tried_twice :
        (w : Ended E A) (e : E) (failed delay : ℕ)
        → policy.retry ≡ true
        → wait_for policy (operation 1) now ≡ (err e, failed)
        → delay_after policy e ≡ some delay
        → IsBefore policy.deadline (failed + delay)
        → w.starts ≡ (failed + delay) ∷ now ∷ []
        → (w.result, w.finished) ≡ wait_for policy (operation 2) (failed + delay)
        → Story w

  before : (deadline : Option ℕ) (at : ℕ) → is_past deadline at ≡ false → IsBefore deadline at
  before none at h = tt
  before (some d) at h = ground arith

  retried :
      (e : E) (failed at : ℕ)
      → retry_at policy e failed ≡ some at
      → (delay : ℕ) × (delay_after policy e ≡ some delay)
        × (at ≡ failed + delay)
        × IsBefore policy.deadline (failed + delay)
  unfolding retry_at
  retried e failed at h = elim (Option-cases (delay_after policy e)) [
    | inl none_given ↦ absurd (ground (arith, none_given, h))
    | inr (delay, given) ↦ elim (Bool-cases (is_past policy.deadline (failed + delay))) [
      | inl late ↦ absurd (ground (arith, given, late, h))
      | inr early ↦ (
        delay,
        given,
        ground (arith, given, early, h),
        before policy.deadline (failed + delay) early,
      )
    ]
  ]

  again : ℕ → Ended E A
  again at = ended (at ∷ now ∷ []) (wait_for policy (operation 2) at)

  second_chance :
      (e : E) (later : ℕ) (at : Option ℕ)
      → retry_at policy e later ≡ at
      → wait_for policy (operation 1) now ≡ (err e, later)
      → policy.retry ≡ true
      → Story (again_at again (ended (now ∷ []) (err e, later)) at)
  unfolding again
  second_chance e later none stop first h = tried_once _ refl (sym first)
  second_chance e later (some at) go first h =
      let (delay, given, e', early) = retried e later at go in
      rw e' (tried_twice _ e later delay h first given early refl refl)

  after_first :
      (r : Fallible E A × ℕ)
      → wait_for policy (operation 1) now ≡ r
      → policy.retry ≡ true
      → Story (retry_or_end policy again (now ∷ []) r)
  unfolding retry_or_end again
  after_first (ok a, later) first h = tried_once _ refl (sym first)
  after_first (err e, later) first h = second_chance e later (retry_at policy e later) refl first h

  by_retry :
      (allowed : Bool)
      → policy.retry ≡ allowed
      → Story (attempts_from policy operation (follow_ups allowed) 1 now [])
  unfolding attempts_from again
  by_retry true on = after_first (wait_for policy (operation 1) now) refl on
  by_retry false off = tried_once _ refl refl

  -- The watchdog makes one attempt or two. It makes a second only where retrying is on, the first
  -- failed, by itself or at the timeout, the caller's rule gives a delay for that failure, and the
  -- delay ends before the deadline; the second begins then. What comes out, and when, is what waiting
  -- for the last attempt under the timeout gives.
  pub call_with_watchdog-Story : Story (call_with_watchdog policy operation now)
  unfolding call_with_watchdog attempts_from retry_or_end
  call_with_watchdog-Story = by_retry policy.retry refl

  wait_for-within :
      (attempt : Attempt E A) (start slack : ℕ)
      → attempt.winds_down ≤ slack
      → (wait_for policy attempt start).1 ≤ start + policy.timeout + slack
  unfolding wait_for
  wait_for-within attempt start slack h = ground arith

  module _ (slack : ℕ) (winds_down : (n : ℕ) → (operation n).winds_down ≤ slack) where
    story_ends :
        (w : Ended E A)
        → Story w
        → (d : ℕ) → policy.deadline ≡ some d
        → (w.finished ≤ now + policy.timeout + slack) ⊎ (w.finished < d + policy.timeout + slack)
    story_ends w (tried_once _ starts e) d h =
        let within = wait_for-within (operation 1) now slack (winds_down 1) in
        inl (ground (arith, within, e))
    story_ends w (tried_twice _ e failed delay on first given early starts e') d h =
        let within = wait_for-within (operation 2) (failed + delay) slack (winds_down 2) in
        let soon = subst (λ (x : Option ℕ). IsBefore x (failed + delay)) h early in
        inr (ground (arith, within, e', soon))

    -- Under a deadline the watchdog is done one timeout after its start or after the deadline, and
    -- as long after that as a cancelled attempt takes at most to end: an attempt that runs into the
    -- timeout is waited for until it has.
    pub finished-by_deadline :
        (d : ℕ)
        → policy.deadline ≡ some d
        → let w = call_with_watchdog policy operation now in
          (w.finished ≤ now + policy.timeout + slack) ⊎ (w.finished < d + policy.timeout + slack)
    finished-by_deadline d h =
        story_ends (call_with_watchdog policy operation now) call_with_watchdog-Story d h
