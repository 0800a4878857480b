-- ===== src/Limiter/Examples.antt =====
-- The gates on a table in memory (src/dodeal_ai/core/cost/limiter.py).
use do_deal_ai.Prelude.{◌+◌, ◌≤◌, refl, none, some, List, [], ◌∷◌, arith, max}
use do_deal_ai.Redis.{cost_tenant}
use do_deal_ai.Redis.Links.{answered, reply_lost}
use do_deal_ai.Redis.Table.{Memory, empty, table}
use do_deal_ai.Limiter.{CostSettings, enforce_cost}
use do_deal_ai.Limiter.Quota.{Decides, Charges, enforce_cost_lem}
use do_deal_ai.Limiter.Quota.Sequence.{Request, passed, passed-within_quota}

abbrev settings : CostSettings
settings = record {
  cost_per_tenant_limit = 4;
  cost_per_user_limit = 2;
  cost_window_seconds = 60;
  cost_tokens_per_tenant_limit = 1000;
  cost_tokens_per_user_limit = 100;
  warning_upper = 4;
  warning_lower = 5;
}

-- The tenant has made three requests in a window that ends at 60.
abbrev counted : Memory
counted = record empty {
  counters =
      λ k. elim k [ cost_tenant t ↦ some (record { value = 3; expires = some 60 }) | _ ↦ none ];
}

enforce_cost_lem_example :
    let (verdict, s') = enforce_cost table settings answered 10 "acme" "ann" 1 counted in
    Charges table answered 10 "acme" "ann" 1 60 counted s' × Decides settings answered 4 1 verdict
enforce_cost_lem_example = enforce_cost_lem table settings answered 10 "acme" "ann" 1 counted

abbrev requests : List Request
requests =
    record { at = 10; link = answered; subject = "ann"; amount = 1 }
    ∷ record { at = 20; link = reply_lost; subject = "bob"; amount = 1 }
    ∷ record { at = 20; link = answered; subject = "bob"; amount = 1 }
    ∷ []

passed-within_quota_example : passed table settings "acme" requests counted + 3 ≤ max 4 3
passed-within_quota_example =
    passed-within_quota table settings "acme" requests 5 60 3 counted
      (
        omega arith,
        omega arith,
        omega arith,
        (omega arith, omega arith, omega arith, (omega arith, omega arith, omega arith, tt)),
      )
      refl
