-- ===== src/Pipeline/Limits.antt =====
-- What the prompt slots are asked for (src/dodeal_ai/units/structured_intelligence/pipeline.py, the
-- two calls of `take_prompt_slots`).
use do_deal_ai.Prelude.{ℕ}
use do_deal_ai.TenantConfig.{TenantConfig}
use do_deal_ai.State.{SlotLimits}

-- `RATE_LIMIT_DAY_WINDOW_SECONDS`.
abbrev pub rate_limit_day_window_seconds : ℕ
rate_limit_day_window_seconds = 86400

-- The keyword arguments of `take_prompt_slots`.
abbrev pub limits_of : TenantConfig → SlotLimits
limits_of config = record {
  attempt_cap = config.clarification_cap;
  attempt_ttl = config.attempt_ttl_seconds;
  rate_limit_hour = config.rate_limit_per_hour;
  rate_ttl = config.rate_limit_window_seconds;
  rate_limit_day = config.rate_limit_per_day;
  rate_ttl_day = rate_limit_day_window_seconds;
}
