-- ===== src/Resilience.antt =====
-- The watchdog around every external call (src/dodeal_ai/core/resilience.py).
--
-- An operation's attempt is what it would end with, how long it would take, and what it does once it is
-- cancelled; instants and spans are numbers of ticks. Log lines are left out.
pub mod Bounds
mod Examples
use do_deal_ai.Prelude.{
  ℕ, zero, suc, ◌+◌, Bool, true, false, Option, none, some, List, [], ◌∷◌, leb, if◌then◌else◌,
  Fallible, err, ok,
}

-- What one attempt would do.
pub record Attempt (E A : Type 0) : Type 0 where
  pub ends_with : Fallible E A
  pub takes : ℕ
  -- What it ends with once it is cancelled, where it does not let the cancellation out, and how long
  -- it goes on after it.
  pub when_cancelled : Option (Fallible E A)
  pub winds_down : ℕ

-- The arguments of a call, after the defaults of the settings.
pub record Policy (E : Type 0) : Type 0 where
  pub timeout : ℕ
  pub retry : Bool
  -- `none` is no rule, under which every failure is retried at once.
  pub retry_delay : Option (E → Option ℕ)
  pub deadline : Option ℕ
  -- `TimeoutError()`.
  pub timed_out : E

-- How the call ended: the last attempt's result, an error of it being the cause of the
-- ExternalCallError, with the instants at which the attempts began, the latest first, and the end.
pub record Ended (E A : Type 0) : Type 0 where
  pub result : Fallible E A
  pub starts : List ℕ
  pub finished : ℕ

abbrev pub delay_after : {E : Type 0} → Policy E → E → Option ℕ
delay_after policy e = elim policy.retry_delay [ none ↦ some 0 | some rule ↦ rule e ]

abbrev pub is_past : Option ℕ → ℕ → Bool
is_past none at = false
is_past (some deadline) at = leb deadline at

-- When the next attempt begins, where there is one.
unfoldable pub retry_at : {E : Type 0} → Policy E → E → ℕ → Option ℕ
retry_at policy e now = elim (delay_after policy e) [
  | none ↦ none
  | some delay ↦ if is_past policy.deadline (now + delay) then none else some (now + delay)
]

-- `attempts` less the first.
abbrev pub follow_ups : Bool → ℕ
follow_ups true = 1
follow_ups false = 0

module _ {E A : Type 0} where
  abbrev pub cut_short : E → Option (Fallible E A) → Fallible E A
  cut_short timed_out none = err timed_out
  cut_short timed_out (some result) = result

  -- `asyncio.wait_for(operation(), timeout)`, which cancels at the timeout and waits for the end.
  unfoldable pub wait_for : Policy E → Attempt E A → ℕ → Fallible E A × ℕ
  wait_for policy attempt now =
      if leb policy.timeout attempt.takes
      then (
        cut_short policy.timed_out attempt.when_cancelled,
        now + policy.timeout + attempt.winds_down,
      )
      else (attempt.ends_with, now + attempt.takes)

  abbrev pub ended : List ℕ → Fallible E A × ℕ → Ended E A
  ended starts (result, later) = record { result = result; starts = starts; finished = later }

  abbrev pub again_at : (ℕ → Ended E A) → Ended E A → Option ℕ → Ended E A
  again_at again otherwise none = otherwise
  again_at again otherwise (some at) = again at

  unfoldable pub retry_or_end : Policy E → (ℕ → Ended E A) → List ℕ → Fallible E A × ℕ → Ended E A
  unfolding retry_at
  retry_or_end policy again starts (ok a, later) = ended starts (ok a, later)
  retry_or_end policy again starts (err e, later) =
      again_at again (ended starts (err e, later)) (retry_at policy e later)

  -- The rounds of the loop: `more` may follow this one.
  unfoldable pub attempts_from : Policy E → (ℕ → Attempt E A) → ℕ → ℕ → ℕ → List ℕ → Ended E A
  unfolding wait_for retry_or_end
  attempts_from policy operation zero number now starts =
      ended (now ∷ starts) (wait_for policy (operation number) now)
  attempts_from policy operation (suc more) number now starts =
      retry_or_end policy (λ at. attempts_from policy operation more (suc number) at (now ∷ starts))
        (now ∷ starts) (wait_for policy (operation number) now)

  unfoldable pub call_with_watchdog : Policy E → (ℕ → Attempt E A) → ℕ → Ended E A
  unfolding attempts_from
  call_with_watchdog policy operation now =
      attempts_from policy operation (follow_ups policy.retry) 1 now []

-- `gather_first_wins`: the first one's error is raised whenever it fails.
unfoldable pub gather_first_wins :
    {E A B : Type 0} → Fallible E A → Fallible E B → Fallible E (A × B)
gather_first_wins (err e) second = err e
gather_first_wins (ok a) (err e) = err e
gather_first_wins (ok a) (ok b) = ok (a, b)
