-- ===== src/Limiter/Tokens.antt =====
-- What the charge of an answered model call does to the token counters
-- (src/dodeal_ai/core/cost/limiter.py, `enforce_token_cost`).
use do_deal_ai.Prelude.{
  ℕ, ◌+◌, ◌≡◌, refl, ◌∙◌, true, false, not, ◌||◌, is_some, Bool-cases, inl, inr, String,
}
use do_deal_ai.Redis.{
  Redis, CounterKey, cost_tenant, tokens_tenant, cost_user, tokens_user, rate_limit, rate_limit_day,
  attempt, same_counter, TextKey,
}
use do_deal_ai.Redis.Links.{Link, answered, reply_lost, refused}
use do_deal_ai.Limiter.{CostSettings, lacks_expiry, charge, charge_both, enforce_token_cost}
use do_deal_ai.Limiter.Windows.{MovedTogether, charge_both-MovedTogether}

tokens_apart :
    (tenant subject : String) (j : CounterKey)
    → same_counter j (tokens_tenant tenant) ≡ true
    → same_counter j (tokens_user tenant subject) ≡ false
tokens_apart tenant subject (tokens_tenant t) e = refl
tokens_apart tenant subject (cost_tenant t) e = refl
tokens_apart tenant subject (tokens_user t u) e = absurd (cc e)
tokens_apart tenant subject (cost_user t u) e = refl
tokens_apart tenant subject (rate_limit t u) e = refl
tokens_apart tenant subject (rate_limit_day t u) e = refl
tokens_apart tenant subject (attempt t n) e = refl

module _ (redis : Redis) where
  open redis use {Store, count_at, text_at, incr_by, expire, text_at-incr_by, text_at-expire}

  charge-text :
      (now : ℕ) (counter : CounterKey) (amount window : ℕ) (s : Store) (k : TextKey)
      → text_at now k (charge redis now counter amount window s).1 ≡ text_at now k s
  unfolding charge
  charge-text now counter amount window s k =
      let raised_text = text_at-incr_by now k counter amount s in
      let expired_text = text_at-expire now k counter window (incr_by now counter amount s) in
      elim (Bool-cases (
        not (is_some (count_at now counter s))
        || lacks_expiry (count_at now counter (incr_by now counter amount s)))) [
          | inl e ↦ rw e (expired_text ∙ raised_text)
          | inr e ↦ rw e raised_text
        ]

  -- Both token counters are charged and every other key, of a counter or of a text, is as it was.
  abbrev pub TokensMoved : ℕ → String → String → ℕ → ℕ → Store → Store → Type 0
  TokensMoved now tenant subject total window s s' =
      MovedTogether redis now (tokens_tenant tenant) (tokens_user tenant subject) total window s s'
      × ((k : TextKey) → text_at now k s' ≡ text_at now k s)

  -- Nothing changes where the store was not asked.
  abbrev pub TokensCharged : Link → ℕ → String → String → ℕ → ℕ → Store → Store → Type 0
  TokensCharged refused now tenant subject total window s s' = s' ≡ s
  TokensCharged answered now tenant subject total window s s' =
      TokensMoved now tenant subject total window s s'
  TokensCharged reply_lost now tenant subject total window s s' =
      TokensMoved now tenant subject total window s s'

  charge_both-TokensMoved :
      (now : ℕ) (tenant subject : String) (total window : ℕ) (s : Store)
      → TokensMoved now tenant subject total window s
          (charge_both redis now
            (tokens_tenant tenant)
            (tokens_user tenant subject)
            total
            window
            s).1
  unfolding charge_both
  charge_both-TokensMoved now tenant subject total window s = (
    charge_both-MovedTogether redis now (tokens_tenant tenant) (tokens_user tenant subject) total
        window s refl (tokens_apart tenant subject),
    λ k.
        charge-text now (tokens_user tenant subject) total window
          (charge redis now (tokens_tenant tenant) total window s).1 k
        ∙ charge-text now (tokens_tenant tenant) total window s k,
  )

  pub enforce_token_cost-TokensCharged :
      (settings : CostSettings) (link : Link) (now : ℕ) (tenant subject : String)
      (input_tokens output_tokens : ℕ) (s : Store)
      → TokensCharged link now tenant subject
          (input_tokens + output_tokens)
          settings.cost_window_seconds
          s
          (enforce_token_cost redis settings link now tenant subject input_tokens output_tokens s).1
  unfolding enforce_token_cost
  enforce_token_cost-TokensCharged settings refused now tenant subject i o s = refl
  enforce_token_cost-TokensCharged settings reply_lost now tenant subject i o s =
      charge_both-TokensMoved now tenant subject (i + o) settings.cost_window_seconds s
  enforce_token_cost-TokensCharged settings answered now tenant subject i o s =
      charge_both-TokensMoved now tenant subject (i + o) settings.cost_window_seconds s
