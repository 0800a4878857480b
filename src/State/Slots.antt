-- ===== src/State/Slots.antt =====
-- What the prompt-slots script does
-- (src/dodeal_ai/units/structured_intelligence/state.py, `take_prompt_slots`).
pub mod Cap
use do_deal_ai.Prelude.{
  ℕ, suc, ◌+◌, ◌-◌, ◌≤◌, ◌<◌, ◌≡◌, ◌≢◌, refl, ap, sym, ◌∙◌, Bool, true, false, Option, none, some,
  String, arith, if◌then◌else◌, is_some, Option-cases, Bool-cases, ◌⊎◌, inl, inr, leb, ◌==◌, leb→le,
  ◌↔◌,
}
use do_deal_ai.Redis.{
  Redis, CounterKey, rate_limit, rate_limit_day, attempt, same_counter, Entry, alive, raised,
  expiring,
}
use do_deal_ai.Redis.Links.{Link, answered, reply_lost, refused, call}
use do_deal_ai.Limiter.{amount_of, lacks_expiry}
use do_deal_ai.Limiter.Windows.{same_counter_refl, count_at-alive}
use do_deal_ai.Decide.{Guards}
use do_deal_ai.State.{
  SlotLimits, SlotsOutcome, denied_by_attempt, denied_by_rate, slots_allowed, is_taken, take_slot,
  take_three, take_slots, take_prompt_slots, prompt_slots_answer, guards_or,
}

-- A counter after one slot of it is taken: one more, and a window that begins where it was new or
-- had no end.
abbrev pub slot_taken : ℕ → ℕ → Option (Entry ℕ) → Option (Entry ℕ)
slot_taken now window none = alive now (some (now + window)) 1
slot_taken now window (some e) = elim e.expires [
  | none ↦ alive now (some (now + window)) (e.value + 1)
  | some at ↦
      if e.value == 0
      then alive now (some (now + window)) 1
      else some (record { value = e.value + 1; expires = some at })
]

module _ (redis : Redis) where
  open redis use {Store, count_at, incr_by, expire, count_at-incr_by, count_at-expire}

  module _ (now : ℕ) (k : CounterKey) (window : ℕ) (s : Store) where
    one_more : count_at now k (incr_by now k 1 s) ≡ raised now 1 (count_at now k s)
    one_more = rw (count_at-incr_by, same_counter_refl k)

    take_slot-count : (take_slot redis now k window s).0 ≡ amount_of (count_at now k s) + 1
    unfolding take_slot
    take_slot-count = elim (Option-cases (count_at now k s)) [
      | inl e ↦ rw (one_more, e) (ground arith)
      | inr (x, e) ↦ let live = count_at-alive redis now k s x e in rw (one_more, e) (ground arith)
    ]

    take_slot-store :
        (j : CounterKey)
        → count_at now j (take_slot redis now k window s).1 ≡ (
            if same_counter j k then slot_taken now window (count_at now k s) else count_at now j s)
    unfolding take_slot
    take_slot-store j =
        let incremented = count_at-incr_by now j k 1 s in
        let expired = count_at-expire now j k window (incr_by now k 1 s) in
        elim (Option-cases (count_at now k s)) [
          | inl e ↦ rw (one_more, e) (ground (arith, one_more, e, incremented, expired))
          | inr (x, e) ↦
              let live = count_at-alive redis now k s x e in
              rw (one_more, e) (ground (arith, one_more, e, incremented, expired))
        ]

  module _ (limits : SlotLimits) (now : ℕ) (tenant : String) (note_id : ℕ) (subject : String)
      (s : Store) where
    abbrev pub attempts_now : ℕ
    attempts_now = amount_of (count_at now (attempt tenant note_id) s)

    abbrev pub rate_now : ℕ
    rate_now = amount_of (count_at now (rate_limit tenant subject) s)

    abbrev pub rate_day_now : ℕ
    rate_day_now = amount_of (count_at now (rate_limit_day tenant subject) s)

    -- All three counters are under their limits.
    abbrev pub SlotsFree : Type 0
    SlotsFree =
        (attempts_now < limits.attempt_cap)
        × (rate_now < limits.rate_limit_hour)
        × (rate_day_now < limits.rate_limit_day)

    -- The note's and the subject's two counters each have one more, in a window; the rest are kept.
    abbrev pub AllTaken : Store → Type 0
    AllTaken s' =
        (j : CounterKey)
        → count_at now j s' ≡ (
            if same_counter j (attempt tenant note_id)
            then slot_taken now limits.attempt_ttl (count_at now (attempt tenant note_id) s)
            else if same_counter j (rate_limit tenant subject)
            then slot_taken now limits.rate_ttl (count_at now (rate_limit tenant subject) s)
            else if same_counter j (rate_limit_day tenant subject)
            then slot_taken now limits.rate_ttl_day (count_at now (rate_limit_day tenant subject) s)
            else count_at now j s)

    abbrev three : ℕ → (SlotsOutcome × ℕ × ℕ) × Store
    three rate =
        take_three redis limits now (attempt tenant note_id) (rate_limit tenant subject)
          (rate_limit_day tenant subject) rate s

    take_three-reply : (rate : ℕ) → (three rate).0 ≡ (slots_allowed, attempts_now + 1, rate)
    unfolding take_three
    take_three-reply rate = rw (take_slot-count now (attempt tenant note_id) limits.attempt_ttl s)

    apart :
        (a b c d : Option (Entry ℕ)) (i : CounterKey)
        → (if same_counter i (rate_limit_day tenant subject)
            then c
            else if same_counter i (rate_limit tenant subject)
            then b
            else if same_counter i (attempt tenant note_id)
            then a
            else d)
          ≡ (if same_counter i (attempt tenant note_id)
              then a
              else if same_counter i (rate_limit tenant subject)
              then b
              else if same_counter i (rate_limit_day tenant subject)
              then c
              else d)
    apart a b c d (attempt t n) = refl
    apart a b c d (rate_limit t u) = refl
    apart a b c d (rate_limit_day t u) = refl
    apart a b c d i = refl

    take_three-AllTaken : (rate : ℕ) → AllTaken (three rate).1
    unfolding take_three
    take_three-AllTaken rate j =
        let s1 : Store = (take_slot redis now (attempt tenant note_id) limits.attempt_ttl s).1 in
        let s2 : Store = (take_slot redis now (rate_limit tenant subject) limits.rate_ttl s1).1 in
        rw
          (
            take_slot-store now (rate_limit_day tenant subject) limits.rate_ttl_day s2 j,
            take_slot-store now (rate_limit tenant subject) limits.rate_ttl s1 j,
            take_slot-store now (rate_limit tenant subject) limits.rate_ttl s1
                (rate_limit_day tenant subject),
            take_slot-store now (attempt tenant note_id) limits.attempt_ttl s j,
            take_slot-store now (attempt tenant note_id) limits.attempt_ttl s
                (rate_limit tenant subject),
            take_slot-store now (attempt tenant note_id) limits.attempt_ttl s
                (rate_limit_day tenant subject),
          )
          (apart (slot_taken now limits.attempt_ttl (count_at now (attempt tenant note_id) s))
            (slot_taken now limits.rate_ttl (count_at now (rate_limit tenant subject) s))
            (slot_taken now limits.rate_ttl_day (count_at now (rate_limit_day tenant subject) s))
            (count_at now j s) j)

    -- The script took all three slots, which were free, or it changed nothing, and one was not.
    abbrev Takes : (SlotsOutcome × ℕ × ℕ) × Store → Type 0
    Takes ((slots_allowed, attempts, rate), s') =
        SlotsFree × (attempts ≡ attempts_now + 1) × (rate ≡ rate_now) × AllTaken s'
    Takes ((denied_by_attempt, attempts, rate), s') =
        (limits.attempt_cap ≤ attempts_now) × (attempts ≡ attempts_now) × (s' ≡ s)
    Takes ((denied_by_rate, attempts, rate), s') =
        (attempts_now < limits.attempt_cap)
        × ((limits.rate_limit_hour ≤ rate_now) ⊎ (limits.rate_limit_day ≤ rate_day_now))
        × (attempts ≡ attempts_now)
        × (s' ≡ s)

    taken_three :
        (r : (SlotsOutcome × ℕ × ℕ) × Store)
        → r.0 ≡ (slots_allowed, attempts_now + 1, rate_now)
        → SlotsFree
        → AllTaken r.1
        → Takes r
    taken_three ((slots_allowed, a, b), s') e free all = (free, ground arith, ground arith, all)
    taken_three ((denied_by_attempt, a, b), s') e free all = absurd (ground arith)
    taken_three ((denied_by_rate, a, b), s') e free all = absurd (ground arith)

    take_slots-Takes : Takes (take_slots redis limits now tenant note_id subject s)
    unfolding take_slots
    take_slots-Takes = elim (Bool-cases (leb limits.attempt_cap attempts_now)) [
      | inl a ↦ rw a (ground arith, refl, refl)
      | inr a ↦ elim (Bool-cases (leb limits.rate_limit_hour rate_now)) [
        | inl b ↦
            rw (a, b) (ground arith, inl (leb→le limits.rate_limit_hour rate_now b), refl, refl)
        | inr b ↦ elim (Bool-cases (leb limits.rate_limit_day rate_day_now)) [
          | inl c ↦
              rw (a, b, c)
                (ground arith, inr (leb→le limits.rate_limit_day rate_day_now c), refl, refl)
          | inr c ↦
              rw (a, b, c)
                (taken_three (three rate_now) (take_three-reply rate_now)
                  (ground arith, ground arith, ground arith) (take_three-AllTaken rate_now))
        ]
      ]
    ]

    -- Without an answer the guards are those of the read before the model ran, and an open window.
    abbrev pub Answers : Link → ℕ → Guards × Store → Type 0
    Answers answered attempts_read (guards, s') =
        (SlotsFree
          × (guards
              ≡ record { attempts = attempts_now; rate_allowed = true; rate_count = rate_now })
          × AllTaken s')
        ⊎ (((limits.attempt_cap ≤ guards.attempts) ⊎ (guards.rate_allowed ≡ false))
            × ¬ SlotsFree
            × (guards.attempts ≡ attempts_now)
            × (s' ≡ s))
    Answers refused attempts_read (guards, s') =
        (guards ≡ record { attempts = attempts_read; rate_allowed = true; rate_count = 0 })
        × (s' ≡ s)
    Answers reply_lost attempts_read (guards, s') =
        (guards ≡ record { attempts = attempts_read; rate_allowed = true; rate_count = 0 })
        × ((SlotsFree × AllTaken s') ⊎ (¬ SlotsFree × (s' ≡ s)))

    Takes-answered :
        (attempts_read : ℕ) (r : (SlotsOutcome × ℕ × ℕ) × Store)
        → Takes r
        → Answers answered attempts_read (guards_or attempts_read (some r.0), r.1)
    unfolding prompt_slots_answer
    Takes-answered n ((slots_allowed, a, b), s') (free, e, e', all) =
        let back : a - 1 ≡ attempts_now = omega arith in inl (free, rw (back, e'), all)
    Takes-answered n ((denied_by_attempt, a, b), s') (full, e, kept) =
        inr (inl (omega arith), λ free. ground arith, e, kept)
    Takes-answered n ((denied_by_rate, a, b), s') (under, full, e, kept) =
        inr (inr refl, λ free. ground arith, e, kept)

    Takes-reply_lost :
        (attempts_read : ℕ) (r : (SlotsOutcome × ℕ × ℕ) × Store)
        → Takes r
        → Answers reply_lost attempts_read (guards_or attempts_read none, r.1)
    Takes-reply_lost n ((slots_allowed, a, b), s') (free, e, e', all) = (refl, inl (free, all))
    Takes-reply_lost n ((denied_by_attempt, a, b), s') (full, e, kept) =
        (refl, inr (λ free. ground arith, kept))
    Takes-reply_lost n ((denied_by_rate, a, b), s') (under, full, e, kept) =
        (refl, inr (λ free. ground arith, kept))

    -- The script takes all three slots or none. With an answer: either all three counters were under
    -- their limits, each is one more with no other counter changed, and the guards are the counts
    -- before and an open rate window; or one was not, nothing changed, and the guards have the note
    -- at its cap or the window closed. Where the store was not asked nothing changed, where its reply
    -- was lost all three or none were taken, and in both the guards are those read earlier with an
    -- open window.
    pub take_prompt_slots_lem :
        (link : Link) (attempts_read : ℕ)
        → Answers link attempts_read
            (take_prompt_slots redis limits link now tenant note_id subject attempts_read s)
    unfolding take_prompt_slots
    take_prompt_slots_lem answered n =
        Takes-answered n (take_slots redis limits now tenant note_id subject s) take_slots-Takes
    take_prompt_slots_lem reply_lost n =
        Takes-reply_lost n (take_slots redis limits now tenant note_id subject s) take_slots-Takes
    take_prompt_slots_lem refused n = (refl, refl)
