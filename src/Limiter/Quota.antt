-- ===== src/Limiter/Quota.antt =====
-- What one request does to the request counters
-- (src/dodeal_ai/core/cost/limiter.py, `enforce_cost`).
pub mod Sequence
use do_deal_ai.Prelude.{
  ℕ, ◌+◌, true, false, ◌≤◌, ◌<◌, ◌≡◌, refl, ap, ◌∙◌, Option, some, String, List, [], ◌∷◌, arith,
  if◌then◌else◌, max, ltb, ltb→lt, ltb→ge, Bool-cases, ◌⊎◌, inl, inr,
}
use do_deal_ai.Redis.{
  Redis, CounterKey, cost_tenant, tokens_tenant, cost_user, tokens_user, rate_limit, rate_limit_day,
  attempt, same_counter, Entry,
}
use do_deal_ai.Redis.Links.{Link, answered, reply_lost, refused}
use do_deal_ai.Limiter.{
  verdict_on, CostSettings, Verdict, allowed, charge, charge_both, enforce_cost, amount_of,
  tenant_quota_exceeded, user_quota_exceeded,
}
use do_deal_ai.Limiter.Windows.{
  charge-count, charge-store, same_counter_refl, MovedTogether, charge_both-MovedTogether,
}

-- When a request is allowed or refused, and why: refused only with an answer, the tenant's cap before
-- the user's.
abbrev pub Decides : CostSettings → Link → ℕ → ℕ → Verdict → Type 0
Decides settings answered tenant_count user_count allowed =
    (tenant_count ≤ settings.cost_per_tenant_limit) × (user_count ≤ settings.cost_per_user_limit)
Decides settings answered tenant_count user_count tenant_quota_exceeded =
    settings.cost_per_tenant_limit < tenant_count
Decides settings answered tenant_count user_count user_quota_exceeded =
    (tenant_count ≤ settings.cost_per_tenant_limit) × (settings.cost_per_user_limit < user_count)
Decides settings reply_lost tenant_count user_count v = v ≡ allowed
Decides settings refused tenant_count user_count v = v ≡ allowed

verdict_on-Decides :
    (settings : CostSettings) (counts : ℕ × ℕ) (a b : ℕ)
    → counts ≡ (a, b)
    → Decides settings answered a b (verdict_on settings (some counts))
unfolding verdict_on
verdict_on-Decides settings (x, y) a b h =
    let tenant_limit : ℕ = settings.cost_per_tenant_limit in
    let user_limit : ℕ = settings.cost_per_user_limit in
    rw (ap (λ (t : ℕ × ℕ). t.0) h, ap (λ (t : ℕ × ℕ). t.1) h)
      (elim (Bool-cases (ltb tenant_limit a)) [
        | inl over ↦ rw over (ltb→lt tenant_limit a over)
        | inr under ↦ elim (Bool-cases (ltb user_limit b)) [
          | inl over ↦ rw (under, over) (ltb→ge tenant_limit a under, ltb→lt user_limit b over)
          | inr low ↦ rw (under, low) (ltb→ge tenant_limit a under, ltb→ge user_limit b low)
        ]
      ])

module _ (redis : Redis) where
  open redis use {Store, count_at, count_at_later}

  -- Both counters are charged and every other counter is as it was.
  abbrev pub BothCharged : ℕ → String → String → ℕ → ℕ → Store → Store → Type 0
  BothCharged now tenant subject amount window s s' =
      MovedTogether redis now (cost_tenant tenant) (cost_user tenant subject) amount window s s'

  module _ (now : ℕ) (tenant subject : String) (amount window : ℕ) (s : Store) where
    charge_both-BothCharged :
        BothCharged now tenant subject amount window s
          (charge_both redis now (cost_tenant tenant) (cost_user tenant subject) amount window s).1
    charge_both-BothCharged =
        charge_both-MovedTogether redis now (cost_tenant tenant) (cost_user tenant subject) amount
          window s refl apart
      where
        apart :
            (j : CounterKey)
            → same_counter j (cost_tenant tenant) ≡ true
            → same_counter j (cost_user tenant subject) ≡ false
        apart (cost_tenant t) e = refl
        apart (tokens_tenant t) e = refl
        apart (cost_user t u) e = absurd (cc e)
        apart (tokens_user t u) e = refl
        apart (rate_limit t u) e = refl
        apart (rate_limit_day t u) e = refl
        apart (attempt t n) e = refl

    charge_both-counts :
        (charge_both redis now (cost_tenant tenant) (cost_user tenant subject) amount window s).0
        ≡ (
          amount_of (count_at now (cost_tenant tenant) s) + amount,
          amount_of (count_at now (cost_user tenant subject) s) + amount,
        )
    unfolding charge_both
    charge_both-counts =
        let s1 : Store = (charge redis now (cost_tenant tenant) amount window s).1 in
        rw (
          charge-count redis now (cost_tenant tenant) amount window s,
          charge-count redis now (cost_user tenant subject) amount window s1,
          charge-store redis now (cost_tenant tenant) amount window s (cost_user tenant subject),
        )

  -- What a request does to the store: nothing where the store was not asked, and else both charges.
  abbrev pub Charges : Link → ℕ → String → String → ℕ → ℕ → Store → Store → Type 0
  Charges refused now tenant subject amount window s s' = s' ≡ s
  Charges answered now tenant subject amount window s s' =
      BothCharged now tenant subject amount window s s'
  Charges reply_lost now tenant subject amount window s s' =
      BothCharged now tenant subject amount window s s'

  -- Both counters move or neither does. Where the call is refused before it is sent nothing changes.
  -- Where it runs, answered or with its reply lost, the tenant's and the user's counter are both higher
  -- by the amount, with an end of the window (kept if it runs), and no other counter changes: so a
  -- request that fails open has been counted where only the reply was lost. A reply decides by the new
  -- counts, the tenant's cap first; without a reply the request is allowed.
  pub enforce_cost_lem :
      (settings : CostSettings) (link : Link) (now : ℕ) (tenant subject : String) (amount : ℕ)
      (s : Store)
      → let (verdict, s') = enforce_cost redis settings link now tenant subject amount s in
        Charges link now tenant subject amount settings.cost_window_seconds s s'
        × Decides settings link
            (amount_of (count_at now (cost_tenant tenant) s) + amount)
            (amount_of (count_at now (cost_user tenant subject) s) + amount)
            verdict
  unfolding enforce_cost
  enforce_cost_lem settings refused now tenant subject amount s = (refl, refl)
  enforce_cost_lem settings reply_lost now tenant subject amount s =
      (charge_both-BothCharged now tenant subject amount settings.cost_window_seconds s, refl)
  enforce_cost_lem settings answered now tenant subject amount s = (
    charge_both-BothCharged now tenant subject amount settings.cost_window_seconds s,
    verdict_on-Decides settings
        (charge_both redis now (cost_tenant tenant) (cost_user tenant subject) amount
          settings.cost_window_seconds s).0
        (amount_of (count_at now (cost_tenant tenant) s) + amount)
        (amount_of (count_at now (cost_user tenant subject) s) + amount)
        (charge_both-counts now tenant subject amount settings.cost_window_seconds s),
  )
