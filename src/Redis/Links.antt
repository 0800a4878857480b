-- ===== src/Redis/Links.antt =====
-- How a command of the service reaches the store: every call runs under a circuit breaker and may
-- raise (src/dodeal_ai/core/breaker.py, src/dodeal_ai/core/redis.py).
use do_deal_ai.Prelude.{Option, none, some}

-- The reply came; the store ran the command and the reply was lost; or the store was not asked,
-- since the breaker, the pool or the connection refused. The last two raise a RedisError.
pub data Link : Type 0 where
  answered reply_lost refused : Link

-- `none` is the RedisError.
abbrev pub call : {A S : Type 0} → Link → (S → A × S) → S → Option A × S
call answered command s = let (a, s') = command s in (some a, s')
call reply_lost command s = let (a, s') = command s in (none, s')
call refused command s = (none, s)
