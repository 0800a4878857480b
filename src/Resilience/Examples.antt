-- ===== src/Resilience/Examples.antt =====
-- A call that fails and is tried again (src/dodeal_ai/core/resilience.py).
use do_deal_ai.Prelude.{
  ℕ, zero, suc, ◌≤◌, ◌<◌, ◌≡◌, ◌⊎◌, refl, true, none, some, arith, [], ◌∷◌, String, err, ok,
}
use do_deal_ai.Resilience.{Attempt, Policy, call_with_watchdog}
use do_deal_ai.Resilience.Bounds.{Story, call_with_watchdog-Story, finished-by_deadline}

abbrev policy : Policy String
policy = record {
  timeout = 50;
  retry = true;
  retry_delay = some (λ e. some 10);
  deadline = some 100;
  timed_out = "timeout";
}

-- The first attempt never answers, the second does.
abbrev recovering : ℕ → Attempt String ℕ
recovering (suc zero) = record {
  ends_with = err "never";
  takes = 1000;
  when_cancelled = none;
  winds_down = 2;
}
recovering n = record { ends_with = ok 7; takes = 5; when_cancelled = none; winds_down = 2 }

call_with_watchdog-Story_example :
    Story policy recovering 20 (call_with_watchdog policy recovering 20)
call_with_watchdog-Story_example = call_with_watchdog-Story policy recovering 20

recovers :
    call_with_watchdog policy recovering 20
    ≡ record { result = ok 7; starts = 82 ∷ 20 ∷ []; finished = 87 }
unfolding call_with_watchdog
recovers = refl

recovering-winds_down : (n : ℕ) → (recovering n).winds_down ≤ 2
recovering-winds_down n = ground arith

finished-by_deadline_example :
    ((call_with_watchdog policy recovering 20).finished ≤ 72)
    ⊎ ((call_with_watchdog policy recovering 20).finished < 152)
finished-by_deadline_example =
    finished-by_deadline policy recovering 20 2 recovering-winds_down 100 refl
