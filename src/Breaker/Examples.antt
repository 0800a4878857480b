-- ===== src/Breaker/Examples.antt =====
-- The breaker on concrete histories (src/dodeal_ai/core/breaker.py).
use do_deal_ai.Prelude.{◌≡◌, refl, true, List, [], ◌∷◌, arith}
use do_deal_ai.Breaker.{
  CircuitBreaker, BreakerState, Outcome, Event, arrive, finish, new_breaker, admit, run,
}
use do_deal_ai.Breaker.Counting.{IsValid, run-IsValid}
use do_deal_ai.Breaker.Windows.{admit-run, AllRefused, single_probe, straggler_answers_for_probe}

-- Threshold 2, window 30: two calls fail at 10 and 12, a third is refused at 20, the probe leaves at
-- 45, and it is still out.
abbrev history : List Event
history =
    arrive 5
    ∷ arrive 6
    ∷ finish 10 Outcome.counted
    ∷ finish 12 Outcome.counted
    ∷ arrive 20
    ∷ arrive 45
    ∷ []

abbrev tripped : CircuitBreaker
tripped = record {
  failure_threshold = 2;
  open_seconds = 30;
  state = BreakerState.open_state;
  failures = 2;
  opened_at = 12;
  probe_started = 0;
}

history-half_open : (run history (new_breaker 2 30)).state ≡ BreakerState.half_open
unfolding run new_breaker
history-half_open = refl

run-IsValid_example : IsValid 2 30 (run history (new_breaker 2 30))
run-IsValid_example = run-IsValid 2 30 (omega arith) history

admit-run_example : (admit 75 (run history (new_breaker 2 30))).0 ≡ true
admit-run_example = admit-run 2 30 45 75 history (omega arith) (omega arith)

-- A straggler fails while the probe is out, and then the probe does.
abbrev failing : List Event
failing =
    arrive 46
    ∷ finish 50 Outcome.counted
    ∷ arrive 60
    ∷ finish 62 Outcome.other_error
    ∷ arrive 74
    ∷ []

single_probe_example : ((admit 45 tripped).0 ≡ true) × AllRefused (admit 45 tripped).1 failing
single_probe_example = single_probe 45 failing tripped refl (omega arith) (
  omega arith,
  omega arith,
  (
    omega arith,
    omega arith,
    tt,
    (omega arith, omega arith, (omega arith, omega arith, tt, (omega arith, omega arith, tt))),
  ),
)

straggler_answers_for_probe_example :
    let b = run (arrive 45 ∷ finish 46 Outcome.success ∷ finish 47 Outcome.counted ∷ []) tripped in
    (b.state ≡ BreakerState.closed) × (b.failures ≡ 1)
straggler_answers_for_probe_example =
    straggler_answers_for_probe 45 46 47 tripped refl (omega arith) (omega arith)
