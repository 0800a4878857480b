-- ===== src/State/Examples.antt =====
-- Keys and slots on a table in memory
-- (src/dodeal_ai/units/structured_intelligence/state.py).
use do_deal_ai.Prelude.{
  ◌+◌, ◌≤◌, ◌≡◌, ◌≢◌, refl, true, false, none, some, List, [], ◌∷◌, String, arith,
}
use do_deal_ai.Redis.{idempotency}
use do_deal_ai.Redis.Links.{answered, refused}
use do_deal_ai.Redis.Table.{Memory, empty, table}
use do_deal_ai.State.{
  SlotLimits, take_prompt_slots, take_over_idempotency, reserve_idempotency, release_idempotency,
}
use do_deal_ai.State.Slots.{Answers, take_prompt_slots_lem}
use do_deal_ai.State.Slots.Cap.{Ask, granted, granted-within_cap}
use do_deal_ai.State.Reservation.{
  Visit, visit, reserves, releases, confirms, freed, claims, claims-exclusive,
}
use do_deal_ai.State.Reservation.Life.{take_over-once}

abbrev limits : SlotLimits
limits = record {
  attempt_cap = 1;
  attempt_ttl = 21600;
  rate_limit_hour = 3;
  rate_ttl = 3600;
  rate_limit_day = 10;
  rate_ttl_day = 86400;
}

take_prompt_slots_lem_example :
    Answers table limits 50 "acme" 7 "ann" empty answered 0
      (take_prompt_slots table limits answered 50 "acme" 7 "ann" 0 empty)
take_prompt_slots_lem_example =
    take_prompt_slots_lem table limits 50 "acme" 7 "ann" empty answered 0

abbrev asks : List Ask
asks =
    record { at = 60; link = answered; subject = "ann"; attempts_read = 0 }
    ∷ record { at = 70; link = answered; subject = "bob"; attempts_read = 0 }
    ∷ record { at = 80; link = refused; subject = "bob"; attempts_read = 0 }
    ∷ []

granted-within_cap_example : granted table limits "acme" 7 asks empty ≤ 1
granted-within_cap_example =
    granted-within_cap table limits "acme" 7 asks 50 empty
      (omega arith, omega arith, (omega arith, omega arith, (omega arith, omega arith, tt))) refl

-- A first delivery reserves the key and fails, a second meets it before the release, a third after.
abbrev visits : List Visit
visits =
    visit 5 answered reserves
    ∷ visit 6 answered reserves
    ∷ visit 7 answered releases
    ∷ visit 8 answered reserves
    ∷ visit 9 answered (confirms "{}" 86400)
    ∷ []

claims_twice : claims table "acme" 7 "f" 40 visits empty ≡ 2
unfolding reserve_idempotency release_idempotency
claims_twice = refl

claims-exclusive_example : claims table "acme" 7 "f" 40 visits empty ≤ freed visits + 1
claims-exclusive_example = claims-exclusive table "acme" 7 "f" 40 0 visits empty (
  omega arith,
  omega arith,
  tt,
  (
    omega arith,
    omega arith,
    tt,
    (
      omega arith,
      omega arith,
      tt,
      (omega arith, omega arith, tt, (omega arith, omega arith, omega arith, tt)),
    ),
  ),
)

json_differs : (let json : String = "{}" in json) ≢ "1"
json_differs h = cc h

-- A key that holds a judgement which no longer validates.
abbrev stored : Memory
stored = record empty {
  texts = λ k. elim k [
    | idempotency t n f ↦ some (record { value = "{}"; expires = some 500 })
    | _ ↦ none
  ];
}

take_over-wins : (take_over_idempotency table answered 20 "acme" 7 "f" "{}" 40 stored).0 ≡ some true
unfolding take_over_idempotency
take_over-wins = refl

take_over-once_example :
    (take_over_idempotency table answered 21 "acme" 7 "f" "{}" 40
      (take_over_idempotency table answered 20 "acme" 7 "f" "{}" 40 stored).1).0
    ≡ some false
take_over-once_example =
    take_over-once table "acme" 7 "f" 20 21 40 "{}" stored (omega arith) json_differs take_over-wins
