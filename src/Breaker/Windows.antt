-- ===== src/Breaker/Windows.antt =====
-- Who is let through while the breaker is not closed (src/dodeal_ai/core/breaker.py, `_admit`).
use do_deal_ai.Prelude.{ℕ, ◌+◌, ◌≤◌, ◌<◌, ◌≡◌, refl, sym, Bool, true, false, List, [], ◌∷◌, arith}
use mathlib.Core.Path.{subst}
use do_deal_ai.Breaker.{
  CircuitBreaker, BreakerState, Outcome, Event, arrive, finish, clear, new_breaker, admit, settle,
  step, run,
}

-- Every clock reading of the history is at most `last`.
abbrev pub IsUntil : ℕ → List Event → Type 0
IsUntil last [] = Unit
IsUntil last (arrive now ∷ es) = (now ≤ last) × IsUntil last es
IsUntil last (finish now _ ∷ es) = (now ≤ last) × IsUntil last es
IsUntil last (clear ∷ es) = IsUntil last es

-- The stamps of the breaker are readings of the past.
record IsStamped (last w : ℕ) (b : CircuitBreaker) : Type 0 where
  window : b.open_seconds ≡ w
  opened : b.opened_at ≤ last
  probed : b.probe_started ≤ last

step-IsStamped :
    (last w : ℕ) (e : Event) (b : CircuitBreaker)
    → IsUntil last (e ∷ [])
    → IsStamped last w b
    → IsStamped last w (step e b)
unfolding step
step-IsStamped last w (arrive now) b u v = ground arith
step-IsStamped last w (finish now Outcome.success) b u v = ground arith
step-IsStamped last w (finish now Outcome.uncounted) b u v = ground arith
step-IsStamped last w (finish now Outcome.counted) b u v = ground arith
step-IsStamped last w (finish now Outcome.other_error) b u v = ground arith
step-IsStamped last w clear b u v = ground arith

run-IsStamped :
    (last w : ℕ) (es : List Event) (b : CircuitBreaker)
    → IsUntil last es
    → IsStamped last w b
    → IsStamped last w (run es b)
unfolding run
run-IsStamped last w [] b u v = v
run-IsStamped last w (arrive now ∷ es) b u v =
    run-IsStamped last w es (step (arrive now) b) u.1
      (step-IsStamped last w (arrive now) b (u.0, tt) v)
run-IsStamped last w (finish now o ∷ es) b u v =
    run-IsStamped last w es (step (finish now o) b) u.1
      (step-IsStamped last w (finish now o) b (u.0, tt) v)
run-IsStamped last w (clear ∷ es) b u v =
    run-IsStamped last w es (step clear b) u (step-IsStamped last w clear b tt v)

admits_when_stale :
    (last w now : ℕ) (b : CircuitBreaker)
    → IsStamped last w b
    → last + w ≤ now
    → (admit now b).0 ≡ true
unfolding admit
admits_when_stale last w now b v h = ground arith

-- The breaker cannot be wedged: whatever calls arrived, ended or never ended, an arrival one window
-- or more after the last clock reading of the history is let through.
pub admit-run :
    (t w last now : ℕ) (es : List Event)
    → IsUntil last es
    → last + w ≤ now
    → (admit now (run es (new_breaker t w))).0 ≡ true
unfolding new_breaker
admit-run t w last now es u h =
    admits_when_stale last w now (run es (new_breaker t w))
      (run-IsStamped last w es (new_breaker t w) u
        (record { window = refl; opened = omega arith; probed = omega arith }))
      h

-- Every arrival of the history is refused and changes nothing.
abbrev pub AllRefused : CircuitBreaker → List Event → Type 0
AllRefused b [] = Unit
AllRefused b (arrive now ∷ es) = (admit now b ≡ (false, b)) × AllRefused (step (arrive now) b) es
AllRefused b (finish now o ∷ es) = AllRefused (step (finish now o) b) es
AllRefused b (clear ∷ es) = AllRefused (step clear b) es

-- A failure that speaks against the store, or an error of ours: no reply, and no refusal by our pool.
abbrev pub IsFailure : Outcome → Type 0
IsFailure Outcome.success = ⊥
IsFailure Outcome.uncounted = ⊥
IsFailure Outcome.counted = Unit
IsFailure Outcome.other_error = Unit

-- Calls arrive and fail from `start` on, all before `limit`.
abbrev pub AllFailing : ℕ → ℕ → List Event → Type 0
AllFailing start limit [] = Unit
AllFailing start limit (arrive now ∷ es) = (start ≤ now) × (now < limit) × AllFailing start limit es
AllFailing start limit (finish now o ∷ es) =
    (start ≤ now) × (now < limit) × IsFailure o × AllFailing start limit es
AllFailing start limit (clear ∷ es) = ⊥

-- Nothing is let through before `limit`.
abbrev IsShutIn : BreakerState → ℕ → CircuitBreaker → Type 0
IsShutIn BreakerState.closed limit b = ⊥
IsShutIn BreakerState.open_state limit b = limit ≤ b.opened_at + b.open_seconds
IsShutIn BreakerState.half_open limit b = limit ≤ b.probe_started + b.open_seconds

record IsShut (w limit : ℕ) (b : CircuitBreaker) : Type 0 where
  window : b.open_seconds ≡ w
  shut : IsShutIn b.state limit b

shut-admit :
    (w limit now : ℕ) (b : CircuitBreaker)
    → IsShut w limit b
    → now < limit
    → admit now b ≡ (false, b)
unfolding admit
shut-admit w limit now b v h = ground arith

settle-IsShut :
    (w start now : ℕ) (o : Outcome) (b : CircuitBreaker)
    → IsFailure o
    → start ≤ now
    → IsShut w (start + w) b
    → IsShut w (start + w) (settle now o b)
unfolding settle
settle-IsShut w start now Outcome.success b f h v = absurd f
settle-IsShut w start now Outcome.uncounted b f h v = absurd f
settle-IsShut w start now Outcome.counted b f h v = ground arith
settle-IsShut w start now Outcome.other_error b f h v = ground arith

shut_refuses :
    (w start : ℕ) (es : List Event) (b : CircuitBreaker)
    → IsShut w (start + w) b
    → AllFailing start (start + w) es
    → AllRefused b es
unfolding step
shut_refuses w start [] b v f = tt
shut_refuses w start (arrive now ∷ es) b v f =
    let turned_away = shut-admit w (start + w) now b v f.1 in
    (
      turned_away,
      subst (λ (r : Bool × CircuitBreaker). AllRefused r.1 es) (sym turned_away)
          (shut_refuses w start es b v f.2),
    )
shut_refuses w start (finish now o ∷ es) b v f =
    shut_refuses w start es (settle now o b) (settle-IsShut w start now o b f.2 f.0 v) f.3
shut_refuses w start (clear ∷ es) b v f = absurd f

-- From an open breaker whose window has passed, the first arrival is let through as the probe. Until
-- the probe is one window old, and while every call that ends meanwhile, the probe or one that was let
-- through before, fails with evidence against the store or by an error of ours, every other arrival is
-- refused and changes nothing. Histories with a call that returns or that our pool refuses, or with a
-- reset, are left out.
pub single_probe :
    (now : ℕ) (es : List Event) (b : CircuitBreaker)
    → b.state ≡ BreakerState.open_state
    → b.opened_at + b.open_seconds ≤ now
    → AllFailing now (now + b.open_seconds) es
    → ((admit now b).0 ≡ true) × AllRefused (admit now b).1 es
unfolding admit
single_probe now es b e h f = (
  ground arith,
  shut_refuses b.open_seconds now es (admit now b).1
      (record { window = ground arith; shut = ground arith }) f,
)

-- A half-open breaker became so after its open window had passed.
abbrev IsElapsed : BreakerState → CircuitBreaker → Type 0
IsElapsed BreakerState.half_open b = b.opened_at + b.open_seconds ≤ b.probe_started
IsElapsed BreakerState.closed b = Unit
IsElapsed BreakerState.open_state b = Unit

step-IsElapsed :
    (e : Event) (b : CircuitBreaker) → IsElapsed b.state b → IsElapsed (step e b).state (step e b)
unfolding step
step-IsElapsed (arrive now) b v = ground arith
step-IsElapsed (finish now Outcome.success) b v = ground arith
step-IsElapsed (finish now Outcome.uncounted) b v = ground arith
step-IsElapsed (finish now Outcome.counted) b v = ground arith
step-IsElapsed (finish now Outcome.other_error) b v = ground arith
step-IsElapsed clear b v = ground arith

run-IsElapsed :
    (es : List Event) (b : CircuitBreaker)
    → IsElapsed b.state b
    → IsElapsed (run es b).state (run es b)
unfolding run
run-IsElapsed [] b v = v
run-IsElapsed (e ∷ es) b v = run-IsElapsed es (step e b) (step-IsElapsed e b v)

returned_probe :
    (now later : ℕ) (b : CircuitBreaker)
    → b.state ≡ BreakerState.half_open
    → IsElapsed b.state b
    → b.probe_started ≤ later
    → (admit later (settle now Outcome.uncounted b)).0 ≡ true
unfolding admit settle
returned_probe now later b e v h = ground arith

-- A probe that our own pool refuses does not hold the slot: after any history that leaves the breaker
-- half open, the refusal of the probe lets the next arrival through as the probe, at once.
pool_refusal_returns_probe :
    (t w now later : ℕ) (es : List Event)
    → (run es (new_breaker t w)).state ≡ BreakerState.half_open
    → (run es (new_breaker t w)).probe_started ≤ later
    → (admit later (settle now Outcome.uncounted (run es (new_breaker t w)))).0 ≡ true
unfolding new_breaker
pool_refusal_returns_probe t w now later es e h =
    returned_probe now later (run es (new_breaker t w)) e (run-IsElapsed es (new_breaker t w) tt) h

-- The breaker does not know which call is its probe. Where a call that was let through before the
-- breaker opened returns while the probe is out, it closes the breaker, and then the probe's own
-- failure does not open it again: it is counted as the first of a new row.
pub straggler_answers_for_probe :
    (now late ended : ℕ) (b : CircuitBreaker)
    → b.state ≡ BreakerState.open_state
    → b.opened_at + b.open_seconds ≤ now
    → 1 < b.failure_threshold
    → let b' =
        run (arrive now ∷ finish late Outcome.success ∷ finish ended Outcome.counted ∷ []) b in
      (b'.state ≡ BreakerState.closed) × (b'.failures ≡ 1)
unfolding run step
straggler_answers_for_probe now late ended b e h t = ground arith
