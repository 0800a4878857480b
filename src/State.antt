-- ===== src/State.antt =====
-- Unit A's idempotency keys and its two prompt guards
-- (src/dodeal_ai/units/structured_intelligence/state.py).
--
-- `none` in place of an idempotency answer is the IdempotencyUnavailableError. The log lines of a
-- bypass and the tenant's request id are left out.
pub mod Slots
pub mod Reservation
pub mod Reference
pub mod Texts
mod Examples
use do_deal_ai.Prelude.{
  ℕ, ◌+◌, ◌-◌, Bool, true, false, not, ◌||◌, Option, none, some, String, leb, ◌==◌, if◌then◌else◌,
  is_some,
}
use text.Mathlib.Text.{◌==◌ as str_eq}
use do_deal_ai.Redis.{
  Redis, CounterKey, rate_limit, rate_limit_day, attempt, TextKey, idempotency, attempt_fingerprint,
  Entry,
}
use do_deal_ai.Redis.Links.{Link, call}
use do_deal_ai.Limiter.{amount_of, lacks_expiry}
use do_deal_ai.Decide.{Guards}

-- `_RESERVED`.
abbrev pub reserved : String
reserved = "1"

-- The arguments of the prompt-slots script after its keys.
pub record SlotLimits : Type 0 where
  pub attempt_cap : ℕ
  pub attempt_ttl : ℕ
  pub rate_limit_hour : ℕ
  pub rate_ttl : ℕ
  pub rate_limit_day : ℕ
  pub rate_ttl_day : ℕ

-- The script's first reply element.
pub data SlotsOutcome : Type 0 where
  denied_by_attempt denied_by_rate slots_allowed : SlotsOutcome

abbrev pub is_taken : SlotsOutcome → Bool
is_taken denied_by_attempt = false
is_taken denied_by_rate = false
is_taken slots_allowed = true

-- `_prompt_slots_answer`.
unfoldable pub prompt_slots_answer : SlotsOutcome × ℕ × ℕ → Guards
prompt_slots_answer (slots_allowed, attempts, rate_count) = record {
  attempts = attempts - 1;
  rate_allowed = true;
  rate_count = rate_count;
}
prompt_slots_answer (denied_by_attempt, attempts, rate_count) = record {
  attempts = attempts;
  rate_allowed = true;
  rate_count = rate_count;
}
prompt_slots_answer (denied_by_rate, attempts, rate_count) = record {
  attempts = attempts;
  rate_allowed = false;
  rate_count = rate_count;
}

-- What the reply to GET says of a key's text.
abbrev pub text_of : Option (Entry String) → Option String
text_of none = none
text_of (some e) = some e.value

-- `raw is None or raw == _RESERVED`.
abbrev pub confirmed_in : Option String → Option String
confirmed_in none = none
confirmed_in (some raw) = if str_eq raw reserved then none else some raw

-- `redis.call('GET', KEYS[1]) == ARGV[1]`.
abbrev pub holds_text : Option String → String → Bool
holds_text none expected = false
holds_text (some raw) expected = str_eq raw expected

abbrev pub guards_or : ℕ → Option (SlotsOutcome × ℕ × ℕ) → Guards
guards_or attempts_read none = record {
  attempts = attempts_read;
  rate_allowed = true;
  rate_count = 0;
}
guards_or attempts_read (some reply) = prompt_slots_answer reply

abbrev pub value_or_zero : Option ℕ → ℕ
value_or_zero none = 0
value_or_zero (some n) = n

module _ (redis : Redis) where
  open redis use {Store, count_at, text_at, incr_by, expire, set_nx, set_xx, set_ex, delete}

  -- SET NX EX, which answers OK exactly where the key was free.
  unfoldable pub reserve_idempotency :
      Link → ℕ → String → ℕ → String → ℕ → Store → Option Bool × Store
  reserve_idempotency link now tenant note_id fingerprint ttl s =
      let key = idempotency tenant note_id fingerprint in
      let command = λ (t : Store).
        let result : Bool × Store =
          (not (is_some (text_at now key t)), set_nx now key reserved ttl t) in
        result in
      call link command s

  unfoldable pub release_idempotency : Link → String → ℕ → String → Store → Store
  release_idempotency link tenant note_id fingerprint s =
      let command = λ (t : Store).
        let result : Unit {0} × Store = (tt, delete (idempotency tenant note_id fingerprint) t) in
        result in
      (call link command s).1

  unfoldable pub confirm_idempotency : Link → ℕ → String → ℕ → String → String → ℕ → Store → Store
  confirm_idempotency link now tenant note_id fingerprint judgement_json ttl s =
      let command = λ (t : Store).
        let result : Unit {0} × Store =
          (tt, set_xx now (idempotency tenant note_id fingerprint) judgement_json ttl t) in
        result in
      (call link command s).1

  -- The outer option is the error, the inner one the reply.
  unfoldable pub read_confirmed_judgement :
      Link → ℕ → String → ℕ → String → Store → Option (Option String)
  read_confirmed_judgement link now tenant note_id fingerprint s =
      let command = λ (t : Store).
        let result : Option String × Store =
          (confirmed_in (text_of (text_at now (idempotency tenant note_id fingerprint) t)), t) in
        result in
      (call link command s).0

  -- `_TAKE_OVER_SCRIPT` and its caller.
  unfoldable pub take_over_idempotency :
      Link → ℕ → String → ℕ → String → String → ℕ → Store → Option Bool × Store
  take_over_idempotency link now tenant note_id fingerprint expected ttl s =
      let key = idempotency tenant note_id fingerprint in
      let command = λ (t : Store).
        let result : Bool × Store =
          if holds_text (text_of (text_at now key t)) expected
          then (true, set_ex now key reserved ttl t)
          else (false, t) in
        result in
      call link command s

  -- One counter of the prompt-slots script: INCR, and EXPIRE on the first or where there is no TTL.
  unfoldable pub take_slot : ℕ → CounterKey → ℕ → Store → ℕ × Store
  take_slot now key window s =
      let s' = incr_by now key 1 s in
      let taken = amount_of (count_at now key s') in
      if taken == 1 || lacks_expiry (count_at now key s')
      then (taken, expire now key window s')
      else (taken, s')

  -- The second half of the script, after its three checks.
  take_three :
      SlotLimits
      → ℕ
      → CounterKey
      → CounterKey
      → CounterKey
      → ℕ
      → Store
      → (SlotsOutcome × ℕ × ℕ) × Store
  unfolding take_slot
  take_three limits now attempt_key rate_key day_key rate s =
      let (taken, s1) = take_slot now attempt_key limits.attempt_ttl s in
      let (rate_taken, s2) = take_slot now rate_key limits.rate_ttl s1 in
      let (rate_day_taken, s3) = take_slot now day_key limits.rate_ttl_day s2 in
      ((slots_allowed, taken, rate), s3)

  -- `_TAKE_PROMPT_SLOTS_SCRIPT`.
  unfoldable pub take_slots :
      SlotLimits → ℕ → String → ℕ → String → Store → (SlotsOutcome × ℕ × ℕ) × Store
  unfolding take_three
  take_slots limits now tenant note_id subject s =
      let attempts = amount_of (count_at now (attempt tenant note_id) s) in
      let rate = amount_of (count_at now (rate_limit tenant subject) s) in
      let rate_day = amount_of (count_at now (rate_limit_day tenant subject) s) in
      if leb limits.attempt_cap attempts
      then ((denied_by_attempt, attempts, 0), s)
      else if leb limits.rate_limit_hour rate
      then ((denied_by_rate, attempts, rate), s)
      else if leb limits.rate_limit_day rate_day
      then ((denied_by_rate, attempts, rate), s)
      else take_three limits now (attempt tenant note_id) (rate_limit tenant subject)
          (rate_limit_day tenant subject) rate s

  unfoldable pub take_prompt_slots :
      SlotLimits → Link → ℕ → String → ℕ → String → ℕ → Store → Guards × Store
  unfolding prompt_slots_answer
  take_prompt_slots limits link now tenant note_id subject attempts_read s =
      let (reply, s') = call link (take_slots limits now tenant note_id subject) s in
      (guards_or attempts_read reply, s')

  -- `int(raw or 0)` of a GET, and 0 without an answer.
  read_count : Link → ℕ → CounterKey → Store → ℕ
  read_count link now key s =
      let command =
        λ (t : Store). let result : ℕ × Store = (amount_of (count_at now key t), t) in result in
      value_or_zero (call link command s).0

  unfoldable pub read_rate_limit : Link → ℕ → String → String → Store → ℕ
  unfolding read_count
  read_rate_limit link now tenant subject s = read_count link now (rate_limit tenant subject) s

  unfoldable pub read_attempts : Link → ℕ → String → ℕ → Store → ℕ
  unfolding read_count
  read_attempts link now tenant note_id s = read_count link now (attempt tenant note_id) s

  unfoldable pub write_attempt_fingerprint : Link → ℕ → String → ℕ → String → ℕ → Store → Store
  write_attempt_fingerprint link now tenant note_id fingerprint ttl s =
      let command = λ (t : Store).
        let result : Unit {0} × Store =
          (tt, set_nx now (attempt_fingerprint tenant note_id) fingerprint ttl t) in
        result in
      (call link command s).1

  unfoldable pub read_attempt_fingerprint : Link → ℕ → String → ℕ → Store → Option String
  read_attempt_fingerprint link now tenant note_id s =
      let command = λ (t : Store).
        let result : Option String × Store =
          (text_of (text_at now (attempt_fingerprint tenant note_id) t), t) in
        result in
      elim (call link command s).0 [ none ↦ none | some raw ↦ raw ]
