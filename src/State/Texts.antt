-- ===== src/State/Texts.antt =====
-- What the prompt guards leave of the idempotency keys
-- (src/dodeal_ai/units/structured_intelligence/state.py): the operations on the counters and on the
-- resubmission reference do not touch them.
use do_deal_ai.Prelude.{
  ℕ, ◌≤◌, ◌≡◌, refl, ◌∙◌, String, arith, is_some, ◌||◌, ◌==◌, inl, inr, Bool-cases,
}
use do_deal_ai.Redis.{
  Redis, CounterKey, attempt, rate_limit, rate_limit_day, TextKey, idempotency, attempt_fingerprint,
}
use do_deal_ai.Redis.Links.{Link, answered, reply_lost, refused}
use do_deal_ai.Limiter.{amount_of, lacks_expiry}
use do_deal_ai.State.{
  SlotLimits, take_slot, take_three, take_slots, take_prompt_slots, write_attempt_fingerprint,
}

module _ (redis : Redis) (now : ℕ) (k : TextKey) where
  open redis use {
    Store, text_at, incr_by, expire, set_nx, text_at_later, text_at-incr_by, text_at-expire,
    text_at-set_ex, set_nx_lem, count_at,
  }

  -- From `now` on the key reads alike in the two stores.
  abbrev pub SameText : Store → Store → Type 0
  SameText s s' = (later : ℕ) → now ≤ later → text_at later k s' ≡ text_at later k s

  same_from : (s s' : Store) → text_at now k s' ≡ text_at now k s → SameText s s'
  same_from s s' e later h = rw (text_at_later now later k s' h, text_at_later now later k s h, e)

  take_slot-text :
      (counter : CounterKey) (window : ℕ) (s : Store)
      → text_at now k (take_slot redis now counter window s).1 ≡ text_at now k s
  unfolding take_slot
  take_slot-text counter window s =
      let raised_text = text_at-incr_by now k counter 1 s in
      let expired_text = text_at-expire now k counter window (incr_by now counter 1 s) in
      elim (Bool-cases (
        amount_of (count_at now counter (incr_by now counter 1 s)) == 1
        || lacks_expiry (count_at now counter (incr_by now counter 1 s)))) [
          | inl e ↦ rw e (expired_text ∙ raised_text)
          | inr e ↦ rw e raised_text
        ]

  take_three-text :
      (limits : SlotLimits) (a b c : CounterKey) (rate : ℕ) (s : Store)
      → text_at now k (take_three redis limits now a b c rate s).1 ≡ text_at now k s
  unfolding take_three
  take_three-text limits a b c rate s =
      let s1 = (take_slot redis now a limits.attempt_ttl s).1 in
      let s2 = (take_slot redis now b limits.rate_ttl s1).1 in
      take_slot-text c limits.rate_ttl_day s2
      ∙ take_slot-text b limits.rate_ttl s1
      ∙ take_slot-text a limits.attempt_ttl s

  take_slots-text :
      (limits : SlotLimits) (tenant : String) (note_id : ℕ) (subject : String) (s : Store)
      → text_at now k (take_slots redis limits now tenant note_id subject s).1 ≡ text_at now k s
  unfolding take_slots
  take_slots-text limits tenant note_id subject s =
      let taken =
        take_three-text limits (attempt tenant note_id) (rate_limit tenant subject)
          (rate_limit_day tenant subject) (amount_of (count_at now (rate_limit tenant subject) s))
          s in
      ground (arith, taken)

  -- Taking slots leaves every text as it reads.
  pub take_prompt_slots-SameText :
      (limits : SlotLimits) (link : Link) (tenant : String) (note_id : ℕ) (subject : String)
      (attempts : ℕ) (s : Store)
      → SameText s (take_prompt_slots redis limits link now tenant note_id subject attempts s).1
  unfolding take_prompt_slots
  take_prompt_slots-SameText limits answered tenant note_id subject attempts s =
      same_from s (take_slots redis limits now tenant note_id subject s).1
        (take_slots-text limits tenant note_id subject s)
  take_prompt_slots-SameText limits reply_lost tenant note_id subject attempts s =
      same_from s (take_slots redis limits now tenant note_id subject s).1
        (take_slots-text limits tenant note_id subject s)
  take_prompt_slots-SameText limits refused tenant note_id subject attempts s = same_from s s refl

module _ (redis : Redis) (now : ℕ) (tenant : String) (note_id : ℕ) (fingerprint : String) where
  open redis use {Store, text_at, set_nx, set_ex, text_at-set_ex, set_nx_lem}

  abbrev the_key : TextKey
  the_key = idempotency tenant note_id fingerprint

  set_nx-text :
      (fingerprint' : String) (ttl : ℕ) (s : Store)
      → text_at now the_key (set_nx now (attempt_fingerprint tenant note_id) fingerprint' ttl s)
        ≡ text_at now the_key s
  set_nx-text fingerprint' ttl s =
      let written =
        text_at-set_ex now the_key (attempt_fingerprint tenant note_id) fingerprint' ttl s in
      elim (Bool-cases (is_some (text_at now (attempt_fingerprint tenant note_id) s))) [
        | inl e ↦
            rw (set_nx_lem now (attempt_fingerprint tenant note_id) fingerprint' ttl s, e) refl
        | inr e ↦
            rw (set_nx_lem now (attempt_fingerprint tenant note_id) fingerprint' ttl s, e) written
      ]

  -- Writing the reference leaves the note's idempotency keys as they read.
  pub write_attempt_fingerprint-SameText :
      (link : Link) (fingerprint' : String) (ttl : ℕ) (s : Store)
      → SameText redis now the_key s
          (write_attempt_fingerprint redis link now tenant note_id fingerprint' ttl s)
  unfolding write_attempt_fingerprint
  write_attempt_fingerprint-SameText answered fingerprint' ttl s =
      same_from redis now the_key s
        (set_nx now (attempt_fingerprint tenant note_id) fingerprint' ttl s)
        (set_nx-text fingerprint' ttl s)
  write_attempt_fingerprint-SameText reply_lost fingerprint' ttl s =
      same_from redis now the_key s
        (set_nx now (attempt_fingerprint tenant note_id) fingerprint' ttl s)
        (set_nx-text fingerprint' ttl s)
  write_attempt_fingerprint-SameText refused fingerprint' ttl s =
      same_from redis now the_key s s refl
