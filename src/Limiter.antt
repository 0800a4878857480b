-- ===== src/Limiter.antt =====
-- The cost gate and the token budget (src/dodeal_ai/core/cost/limiter.py).
--
-- The warning ratio is a fraction: a total is at or above `limit * ratio` when it is after multiplying
-- by the fraction's lower number.
pub mod Windows
pub mod Quota
pub mod Warnings
pub mod Tokens
mod Examples
use do_deal_ai.Prelude.{
  ℕ, ◌+◌, ◌-◌, ◌*◌, Bool, true, false, not, ◌&&◌, ◌||◌, Option, none, some, String, ltb, leb,
  if◌then◌else◌, is_some,
}
use do_deal_ai.Redis.{Redis, CounterKey, cost_tenant, cost_user, tokens_tenant, tokens_user, Entry}
use do_deal_ai.Redis.Links.{Link, call}

-- What get_settings() says of the cost gate.
pub record CostSettings : Type 0 where
  pub cost_per_tenant_limit : ℕ
  pub cost_per_user_limit : ℕ
  pub cost_window_seconds : ℕ
  pub cost_tokens_per_tenant_limit : ℕ
  pub cost_tokens_per_user_limit : ℕ
  pub warning_upper : ℕ
  pub warning_lower : ℕ

-- `int(raw or 0)`, and `tonumber(redis.call('GET', key) or '0')`.
abbrev pub amount_of : Option (Entry ℕ) → ℕ
amount_of none = 0
amount_of (some e) = e.value

-- `redis.call('TTL', key) == -1`: there, and without an expiry.
abbrev pub lacks_expiry : Option (Entry ℕ) → Bool
lacks_expiry none = false
lacks_expiry (some e) = not (is_some e.expires)

-- The outcome of a gate.
pub data Verdict : Type 0 where
  allowed tenant_quota_exceeded user_quota_exceeded : Verdict

-- The outcome of the pre-flight.
pub data Preflight : Type 0 where
  full degraded token_budget_exceeded : Preflight

unfoldable pub verdict_on : CostSettings → Option (ℕ × ℕ) → Verdict
verdict_on settings none = allowed
verdict_on settings (some (tenant_count, user_count)) =
    if ltb settings.cost_per_tenant_limit tenant_count
    then tenant_quota_exceeded
    else if ltb settings.cost_per_user_limit user_count
    then user_quota_exceeded
    else allowed

-- `total >= limit * ratio`.
unfoldable pub reaches : CostSettings → ℕ → ℕ → Bool
reaches settings total limit = leb (limit * settings.warning_upper) (total * settings.warning_lower)

-- `_warn_on_crossing`: whether it logs.
unfoldable pub warn_on_crossing : CostSettings → ℕ → ℕ → ℕ → Bool
unfolding reaches
warn_on_crossing settings before after limit =
    not (reaches settings before limit) && reaches settings after limit

unfoldable pub charge_warnings : CostSettings → ℕ → Option (ℕ × ℕ) → Bool × Bool
unfolding warn_on_crossing
charge_warnings settings total none = (false, false)
charge_warnings settings total (some (tenant_total, user_total)) = (
  warn_on_crossing settings (tenant_total - total) tenant_total
      settings.cost_tokens_per_tenant_limit,
  warn_on_crossing settings (user_total - total) user_total settings.cost_tokens_per_user_limit,
)

unfoldable pub preflight_on : CostSettings → Option (ℕ × ℕ) → Preflight
unfolding reaches
preflight_on settings none = full
preflight_on settings (some (tenant_total, user_total)) =
    if leb settings.cost_tokens_per_tenant_limit tenant_total
      || leb settings.cost_tokens_per_user_limit user_total
    then token_budget_exceeded
    else if reaches settings tenant_total settings.cost_tokens_per_tenant_limit
        || reaches settings user_total settings.cost_tokens_per_user_limit
    then degraded
    else full

module _ (redis : Redis) where
  open redis use {Store, count_at, incr_by, expire}

  -- One counter of the script: EXISTS, INCRBY, and EXPIRE where the key is new or has no TTL.
  unfoldable pub charge : ℕ → CounterKey → ℕ → ℕ → Store → ℕ × Store
  charge now key amount window s =
      let existed = is_some (count_at now key s) in
      let s' = incr_by now key amount s in
      let count = amount_of (count_at now key s') in
      if not existed || lacks_expiry (count_at now key s')
      then (count, expire now key window s')
      else (count, s')

  -- `_INCR_BOTH_SCRIPT`, and `_ADD_TOKENS_SCRIPT`, which has the same text.
  unfoldable pub charge_both : ℕ → CounterKey → CounterKey → ℕ → ℕ → Store → (ℕ × ℕ) × Store
  charge_both now tenant_key user_key amount window s =
      let (tenant_count, s') = charge now tenant_key amount window s in
      let (user_count, s'') = charge now user_key amount window s' in
      ((tenant_count, user_count), s'')

  -- `enforce_cost`; without a reply it fails open.
  unfoldable pub enforce_cost :
      CostSettings → Link → ℕ → String → String → ℕ → Store → Verdict × Store
  unfolding verdict_on
  enforce_cost settings link now tenant subject amount s =
      let (reply, s') =
        call link
          (charge_both now (cost_tenant tenant) (cost_user tenant subject) amount
            settings.cost_window_seconds)
          s in
      (verdict_on settings reply, s')

  -- `enforce_token_cost`: which of the two warnings it logs. It never refuses.
  unfoldable pub enforce_token_cost :
      CostSettings → Link → ℕ → String → String → ℕ → ℕ → Store → (Bool × Bool) × Store
  unfolding charge_warnings
  enforce_token_cost settings link now tenant subject input_tokens output_tokens s =
      let total = input_tokens + output_tokens in
      let (reply, s') =
        call link
          (charge_both now (tokens_tenant tenant) (tokens_user tenant subject) total
            settings.cost_window_seconds)
          s in
      (charge_warnings settings total reply, s')

  -- `token_preflight`: MGET of the two keys, and nothing else.
  unfoldable pub token_preflight :
      CostSettings → Link → ℕ → String → String → Store → Preflight × Store
  unfolding preflight_on
  token_preflight settings link now tenant subject s =
      let read = λ (t : Store).
        let result : (ℕ × ℕ) × Store = (
          (
            amount_of (count_at now (tokens_tenant tenant) t),
            amount_of (count_at now (tokens_user tenant subject) t),
          ),
          t,
        ) in
        result in
      let (reply, s') = call link read s in (preflight_on settings reply, s')

  -- `get_usage`: the two request counts, and nothing changes.
  unfoldable pub get_usage : ℕ → String → String → Store → ℕ × ℕ
  get_usage now tenant subject s = (
    amount_of (count_at now (cost_tenant tenant) s),
    amount_of (count_at now (cost_user tenant subject) s),
  )
