-- ===== src/State/Reservation/Visits.antt =====
-- The calls that reach one idempotency key
-- (src/dodeal_ai/units/structured_intelligence/state.py).
use do_deal_ai.Prelude.{ℕ, ◌+◌, ◌≤◌, ◌<◌, String, List, [], ◌∷◌}
use do_deal_ai.Redis.Links.{Link, answered, reply_lost, refused}

-- What reaches the key: a delivery asks for it, a judgement is confirmed under it for a lifetime, a
-- value that no longer validates is taken over, or a delivery that failed releases it.
pub data Command : Type 0 where
  reserves releases : Command
  confirms : String → ℕ → Command
  takes_over : String → Command

-- One call: when, and how it went.
pub data Visit : Type 0 where
  visit : ℕ → Link → Command → Visit

-- A confirmation is for no shorter than a reservation.
abbrev pub IsLasting : ℕ → Command → Type 0
IsLasting ttl reserves = Unit
IsLasting ttl releases = Unit
IsLasting ttl (confirms json lifetime) = ttl ≤ lifetime
IsLasting ttl (takes_over expected) = Unit

-- The calls come in order, from `now` on and before `limit`.
abbrev pub InFlight : ℕ → ℕ → ℕ → List Visit → Type 0
InFlight ttl now limit [] = Unit
InFlight ttl now limit (visit at link command ∷ rest) =
    (now ≤ at) × (at < limit) × IsLasting ttl command × InFlight ttl at limit rest

-- A release that reached the store.
abbrev pub frees : Link → Command → ℕ
frees answered releases = 1
frees reply_lost releases = 1
frees refused releases = 0
frees link reserves = 0
frees link (confirms json lifetime) = 0
frees link (takes_over expected) = 0

abbrev pub freed : List Visit → ℕ
freed [] = 0
freed (visit at link command ∷ rest) = frees link command + freed rest
