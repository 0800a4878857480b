-- ===== src/Breaker/Counting.antt =====
-- What is counted and when the breaker opens (src/dodeal_ai/core/breaker.py, `_record_failure`,
-- `_record_success` and the handlers of `call`).
use do_deal_ai.Prelude.{
  ℕ, ◌+◌, ◌<◌, ◌≡◌, ◌≢◌, refl, List, [], ◌∷◌, arith, ltb, if◌then◌else◌, length,
}
use do_deal_ai.Breaker.{
  CircuitBreaker, BreakerState, Outcome, Event, arrive, finish, clear, new_breaker, step, run,
  settle,
}

-- A closed breaker has seen fewer failures in a row than would have opened it.
abbrev pub IsBelow : BreakerState → CircuitBreaker → Type 0
IsBelow BreakerState.closed b = b.failures < b.failure_threshold
IsBelow BreakerState.open_state b = Unit
IsBelow BreakerState.half_open b = Unit

-- The settings of the breaker stay, and a closed breaker is below its threshold.
pub record IsValid (failure_threshold open_seconds : ℕ) (b : CircuitBreaker) : Type 0 where
  threshold_kept : b.failure_threshold ≡ failure_threshold
  window_kept : b.open_seconds ≡ open_seconds
  pub below : IsBelow b.state b

module _ (t w : ℕ) (positive : 0 < t) where
  step-IsValid : (e : Event) (b : CircuitBreaker) → IsValid t w b → IsValid t w (step e b)
  unfolding step
  step-IsValid (arrive now) b v = ground arith
  step-IsValid (finish now Outcome.success) b v = ground arith
  step-IsValid (finish now Outcome.uncounted) b v = ground arith
  step-IsValid (finish now Outcome.counted) b v = ground arith
  step-IsValid (finish now Outcome.other_error) b v = ground arith
  step-IsValid clear b v = ground arith

  run_keeps : (es : List Event) (b : CircuitBreaker) → IsValid t w b → IsValid t w (run es b)
  unfolding run
  run_keeps [] b v = v
  run_keeps (e ∷ es) b v = run_keeps es (step e b) (step-IsValid e b v)

  -- With a positive threshold, after any interleaving of arrivals, ends of calls and resets the
  -- breaker keeps its settings, and while it is closed its failure count is below the threshold.
  pub run-IsValid : (es : List Event) → IsValid t w (run es (new_breaker t w))
  unfolding new_breaker
  run-IsValid es =
      run_keeps es (new_breaker t w)
        (record { threshold_kept = refl; window_kept = refl; below = positive })

-- The calls end one after the other, at the given times, each with evidence against the store.
abbrev pub failures_at : List ℕ → List Event
failures_at [] = []
failures_at (now ∷ times) = finish now Outcome.counted ∷ failures_at times

abbrev opened_after : ℕ → ℕ → BreakerState
opened_after n t = if ltb n t then BreakerState.closed else BreakerState.open_state

failures_from :
    (times : List ℕ) (b : CircuitBreaker)
    → b.state ≡ opened_after b.failures b.failure_threshold
    → (run (failures_at times) b).state
      ≡ opened_after (b.failures + length times) b.failure_threshold
unfolding run step
failures_from [] b h = ground arith
failures_from (now ∷ times) b h =
    ground (arith, failures_from times (step (finish now Outcome.counted) b))

-- A breaker that has just been told of a success, and was not open, opens at exactly the threshold:
-- after n failures in a row it is closed if n is below the threshold, and open from there on.
opens_at_threshold :
    (times : List ℕ) (now : ℕ) (b : CircuitBreaker)
    → 0 < b.failure_threshold
    → b.state ≢ BreakerState.open_state
    → (run (finish now Outcome.success ∷ failures_at times) b).state ≡ (
        if ltb (length times) b.failure_threshold
        then BreakerState.closed
        else BreakerState.open_state)
unfolding run step
opens_at_threshold times now b positive h =
    ground (arith, failures_from times (step (finish now Outcome.success) b))

-- What is no evidence and no answer leaves the count of failures alone.
pub settle-failures :
    (now : ℕ) (b : CircuitBreaker)
    → ((settle now Outcome.uncounted b).failures ≡ b.failures)
      × ((settle now Outcome.other_error b).failures ≡ b.failures)
unfolding settle
settle-failures now b = (ground arith, ground arith)

-- A call that returns clears it.
pub success-failures : (now : ℕ) (b : CircuitBreaker) → (settle now Outcome.success b).failures ≡ 0
unfolding settle
success-failures now b = ground arith
