-- ===== src/Middleware/Inflight.antt =====
-- Load shedding (src/dodeal_ai/middleware/inflight.py and src/dodeal_ai/core/inflight.py).
--
-- Requests are numbered. A step is what the event loop runs with no await inside: a request arrives and
-- is passed on, admitted or shed, or one that is inside ends, whether it returns or raises.
pub mod Count
use do_deal_ai.Prelude.{
  ℕ, ◌+◌, ◌-◌, ◌≡◌, Bool, true, false, List, [], ◌∷◌, ◌++◌, String, leb, if◌then◌else◌, any,
}
use text.Mathlib.Text.{◌==◌ as str_eq}

-- `InflightCounter.acquire`: whether a slot was taken, and the count after it.
unfoldable pub acquire : ℕ → ℕ → Bool × ℕ
acquire limit count = if leb limit count then (false, count) else (true, count + 1)

-- `InflightCounter.release`.
unfoldable pub release : ℕ → ℕ
release count = count - 1

-- `EXEMPT_PATHS`.
abbrev pub exempt_paths : List String
exempt_paths = "/health" ∷ "/ready" ∷ "/metrics" ∷ []

abbrev pub is_exempt : String → Bool
is_exempt path = any (λ p. str_eq path p) exempt_paths

-- The process's counter, the requests that hold a slot of it, and those inside without one.
pub record Process : Type 0 where
  pub count : ℕ
  pub holding : List ℕ
  pub exempted : List ℕ

-- How `__call__` goes on for a request.
pub data Arrival : Type 0 where
  passed admitted shed : Arrival

abbrev pub after_acquire : ℕ → Process → Bool × ℕ → Arrival × Process
after_acquire id s (true, count) = (admitted, record s { count = count; holding = id ∷ s.holding })
after_acquire id s (false, count) = (shed, record s { count = count })

-- `__call__` up to the inner application.
unfoldable pub arrive : ℕ → ℕ → String → Process → Arrival × Process
unfolding acquire
arrive limit id path s =
    if is_exempt path
    then (passed, record s { exempted = id ∷ s.exempted })
    else after_acquire id s (acquire limit s.count)

-- The `finally`.
unfoldable pub leave : List ℕ → Process → Process
unfolding release
leave others s = record s { count = release s.count; holding = others }

-- One step of the process.
pub data Step (limit : ℕ) (s : Process) : Process → Type 0 where
  arrives : (id : ℕ) (path : String) → Step limit s (arrive limit id path s).1
  leaves :
      (id : ℕ) (before after : List ℕ)
      → s.holding ≡ before ++ id ∷ after
      → Step limit s (leave (before ++ after) s)
  exempt_leaves :
      (id : ℕ) (before after : List ℕ)
      → s.exempted ≡ before ++ id ∷ after
      → Step limit s (record s { exempted = before ++ after })

abbrev pub started : Process
started = record { count = 0; holding = []; exempted = [] }

-- What the process can come to.
pub data Reachable (limit : ℕ) : Process → Type 0 where
  at_start : Reachable limit started
  then_step : {s t : Process} → Reachable limit s → Step limit s t → Reachable limit t
