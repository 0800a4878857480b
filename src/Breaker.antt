-- ===== src/Breaker.antt =====
-- The circuit breaker (src/dodeal_ai/core/breaker.py).
--
-- A call is two synchronous pieces of code with an await between them: `admit` when it arrives, and
-- `settle` when its awaitable ends. Other calls run their own pieces in between, so a history of the
-- breaker is a list of such events, in the order in which the event loop runs them.
-- Monotonic clock readings and `open_seconds` are numbers of ticks. `counts` and `uncounted` have
-- sorted the exception of a failed call into `Outcome`.
pub mod Counting
pub mod Windows
mod Examples
use do_deal_ai.Prelude.{ℕ, ◌+◌, Bool, true, false, List, [], ◌∷◌, ltb, leb, if◌then◌else◌}

pub data BreakerState : Type 0 where
  closed open_state half_open : BreakerState

pub record CircuitBreaker : Type 0 where
  pub failure_threshold : ℕ
  pub open_seconds : ℕ
  pub state : BreakerState
  pub failures : ℕ
  pub opened_at : ℕ
  pub probe_started : ℕ

-- `CircuitBreaker.__init__`.
unfoldable pub new_breaker : ℕ → ℕ → CircuitBreaker
new_breaker failure_threshold open_seconds = record {
  failure_threshold = failure_threshold;
  open_seconds = open_seconds;
  state = BreakerState.closed;
  failures = 0;
  opened_at = 0;
  probe_started = 0;
}

-- How the awaited call ended: it returned; our pool refused it (`uncounted`); it failed with
-- evidence against the store (`counts`); or anything else, a cancellation or a bug of ours.
pub data Outcome : Type 0 where
  success uncounted counted other_error : Outcome

-- `_open`.
unfoldable pub open_window : ℕ → CircuitBreaker → CircuitBreaker
open_window now b = record b { state = BreakerState.open_state; opened_at = now }

admit_from : BreakerState → ℕ → CircuitBreaker → Bool × CircuitBreaker
admit_from BreakerState.closed now b = (true, b)
admit_from BreakerState.open_state now b =
    if ltb now (b.opened_at + b.open_seconds)
    then (false, b)
    else (true, record b { state = BreakerState.half_open; probe_started = now })
admit_from BreakerState.half_open now b =
    if ltb now (b.probe_started + b.open_seconds)
    then (false, b)
    else (true, record b { probe_started = now })

-- `_admit`: false is the refusal, raised before the store is asked.
unfoldable pub admit : ℕ → CircuitBreaker → Bool × CircuitBreaker
unfolding admit_from
admit now b = admit_from b.state now b

count_failure : ℕ → CircuitBreaker → CircuitBreaker
unfolding open_window
count_failure now b =
    let b' : CircuitBreaker = record b { failures = b.failures + 1 } in
    if leb b.failure_threshold (b.failures + 1) then open_window now b' else b'

record_failure_from : BreakerState → ℕ → CircuitBreaker → CircuitBreaker
unfolding open_window count_failure
record_failure_from BreakerState.half_open now b = open_window now b
record_failure_from BreakerState.closed now b = count_failure now b
record_failure_from BreakerState.open_state now b = count_failure now b

-- `_record_failure`.
unfoldable pub record_failure : ℕ → CircuitBreaker → CircuitBreaker
unfolding record_failure_from
record_failure now b = record_failure_from b.state now b

record_success_from : BreakerState → CircuitBreaker → CircuitBreaker
record_success_from BreakerState.half_open b = record b {
  state = BreakerState.closed;
  failures = 0;
}
record_success_from BreakerState.closed b = record b { failures = 0 }
record_success_from BreakerState.open_state b = record b { failures = 0 }

-- `_record_success`.
unfoldable pub record_success : CircuitBreaker → CircuitBreaker
unfolding record_success_from
record_success b = record_success_from b.state b

return_probe : BreakerState → CircuitBreaker → CircuitBreaker
return_probe BreakerState.half_open b = record b { state = BreakerState.open_state }
return_probe BreakerState.closed b = b
return_probe BreakerState.open_state b = b

rearm : BreakerState → ℕ → CircuitBreaker → CircuitBreaker
unfolding open_window
rearm BreakerState.half_open now b = open_window now b
rearm BreakerState.closed now b = b
rearm BreakerState.open_state now b = b

-- The part of `call` after the await. `now` is the clock at that moment.
unfoldable pub settle : ℕ → Outcome → CircuitBreaker → CircuitBreaker
unfolding record_success record_failure return_probe rearm
settle now Outcome.success b = record_success b
settle now Outcome.uncounted b = return_probe b.state b
settle now Outcome.counted b = record_failure now b
settle now Outcome.other_error b = rearm b.state now b

-- `reset`.
unfoldable pub reset : CircuitBreaker → CircuitBreaker
reset b = record b { state = BreakerState.closed; failures = 0 }

-- What the event loop runs next: an arrival, the end of a call, or a reset.
pub data Event : Type 0 where
  arrive : ℕ → Event
  finish : ℕ → Outcome → Event
  clear : Event

unfoldable pub step : Event → CircuitBreaker → CircuitBreaker
unfolding admit settle reset
step (arrive now) b = (admit now b).1
step (finish now o) b = settle now o b
step clear b = reset b

unfoldable pub run : List Event → CircuitBreaker → CircuitBreaker
unfolding step
run [] b = b
run (e ∷ es) b = run es (step e b)
