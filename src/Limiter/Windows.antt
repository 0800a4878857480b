-- ===== src/Limiter/Windows.antt =====
-- What one run of the counter script does to the two counters
-- (src/dodeal_ai/core/cost/limiter.py, `_INCR_BOTH_SCRIPT`).
use do_deal_ai.Prelude.{
  ℕ, ◌+◌, ◌≡◌, refl, true, false, Bool-cases, Option, none, some, arith, if◌then◌else◌,
  Option-cases, inl, inr,
}
use text.Mathlib.TextPositions.{eq_refl}
use do_deal_ai.Redis.{
  Redis, CounterKey, cost_tenant, tokens_tenant, cost_user, tokens_user, rate_limit, rate_limit_day,
  attempt, same_counter, Entry, alive, raised,
}
use do_deal_ai.Limiter.{charge, charge_both, amount_of}

pub same_counter_refl : (k : CounterKey) → same_counter k k ≡ true
same_counter_refl (cost_tenant t) = eq_refl t
same_counter_refl (tokens_tenant t) = eq_refl t
same_counter_refl (cost_user t s) = rw (eq_refl t) (eq_refl s)
same_counter_refl (tokens_user t s) = rw (eq_refl t) (eq_refl s)
same_counter_refl (rate_limit t s) = rw (eq_refl t) (eq_refl s)
same_counter_refl (rate_limit_day t s) = rw (eq_refl t) (eq_refl s)
same_counter_refl (attempt t n) = rw (eq_refl t) (ground arith)

-- The counter after a charge: it is `amount` higher; a window that runs keeps its end, and a counter
-- that is new or has no end gets one.
abbrev pub charged : ℕ → ℕ → ℕ → Option (Entry ℕ) → Option (Entry ℕ)
charged now amount window none = alive now (some (now + window)) amount
charged now amount window (some e) = elim e.expires [
  | none ↦ alive now (some (now + window)) (e.value + amount)
  | some at ↦ some (record { value = e.value + amount; expires = some at })
]

module _ (redis : Redis) where
  open redis use {
    Store, count_at, incr_by, expire, count_at_later, count_at-incr_by, count_at-expire,
  }

  pub count_at-alive :
      (now : ℕ) (k : CounterKey) (s : Store) (e : Entry ℕ)
      → count_at now k s ≡ some e
      → alive now e.expires e.value ≡ some e
  count_at-alive now k s e h = let twice = count_at_later now now k s (omega arith) in ground arith

  module _ (now : ℕ) (k : CounterKey) (amount window : ℕ) (s : Store) where
    raised_here : count_at now k (incr_by now k amount s) ≡ raised now amount (count_at now k s)
    raised_here = rw (count_at-incr_by, same_counter_refl k)

    pub charge-count :
        (charge redis now k amount window s).0 ≡ amount_of (count_at now k s) + amount
    unfolding charge
    charge-count = elim (Option-cases (count_at now k s)) [
      | inl e ↦ rw (raised_here, e) (ground arith)
      | inr (x, e) ↦ let live = count_at-alive now k s x e in rw (raised_here, e) (ground arith)
    ]

    pub charge-store :
        (j : CounterKey)
        → count_at now j (charge redis now k amount window s).1 ≡ (
            if same_counter j k
            then charged now amount window (count_at now k s)
            else count_at now j s)
    unfolding charge
    charge-store j = elim (Option-cases (count_at now k s)) [
      | inl e ↦
          rw (raised_here, e)
            (ground (
              arith,
              raised_here,
              e,
              count_at-incr_by now j k amount s,
              count_at-expire now j k window (incr_by now k amount s),
            ))
      | inr (x, e) ↦
          let live = count_at-alive now k s x e in
          rw (raised_here, e)
            (ground (
              arith,
              raised_here,
              e,
              count_at-incr_by now j k amount s,
              count_at-expire now j k window (incr_by now k amount s),
            ))
    ]

  -- Two counters are charged and every other counter is as it was.
  abbrev pub MovedTogether : ℕ → CounterKey → CounterKey → ℕ → ℕ → Store → Store → Type 0
  MovedTogether now k k' amount window s s' =
      (j : CounterKey)
      → count_at now j s' ≡ (
          if same_counter j k
          then charged now amount window (count_at now k s)
          else if same_counter j k'
          then charged now amount window (count_at now k' s)
          else count_at now j s)

  module _ (now : ℕ) (k k' : CounterKey) (amount window : ℕ) (s : Store)
      (other : same_counter k' k ≡ false)
      (apart : (j : CounterKey) → same_counter j k ≡ true → same_counter j k' ≡ false) where
    pub charge_both-MovedTogether :
        MovedTogether now k k' amount window s (charge_both redis now k k' amount window s).1
    unfolding charge_both
    charge_both-MovedTogether j =
        let s1 : Store = (charge redis now k amount window s).1 in
        elim (Bool-cases (same_counter j k)) [
          | inl e ↦
              rw
                (
                  charge-store now k' amount window s1 j,
                  apart j e,
                  charge-store now k amount window s j,
                  e,
                )
                refl
          | inr e ↦
              rw
                (
                  charge-store now k' amount window s1 j,
                  charge-store now k amount window s j,
                  charge-store now k amount window s k',
                  other,
                  e,
                )
                refl
        ]
