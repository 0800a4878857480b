-- ===== src/Limiter/Warnings.antt =====
-- The token budget's warnings and its pre-flight
-- (src/dodeal_ai/core/cost/limiter.py, `_warn_on_crossing` and `token_preflight`).
use do_deal_ai.Prelude.{
  some, ℕ, ◌+◌, ◌*◌, ◌≤◌, ◌≡◌, ◌⊎◌, refl, Bool, true, not, ◌&&◌, String, List, [], ◌∷◌, arith,
  if◌then◌else◌, sum_of,
}
use do_deal_ai.Redis.{Redis, tokens_tenant, tokens_user}
use do_deal_ai.Redis.Links.{Link, answered, reply_lost, refused}
use do_deal_ai.Limiter.{
  CostSettings, reaches, warn_on_crossing, Preflight, full, degraded, token_budget_exceeded,
  preflight_on, token_preflight, amount_of,
}

-- The warnings of one counter while the charges of one window are added to it.
abbrev pub warnings : CostSettings → ℕ → ℕ → List ℕ → ℕ
warnings settings limit before [] = 0
warnings settings limit before (amount ∷ rest) =
    (if warn_on_crossing settings before (before + amount) limit then 1 else 0)
    + warnings settings limit (before + amount) rest

reaches_mono :
    (settings : CostSettings) (a b limit : ℕ)
    → a ≤ b
    → reaches settings a limit ≡ true
    → reaches settings b limit ≡ true
unfolding reaches
reaches_mono settings a b limit h e =
    let grown : a * settings.warning_lower ≤ b * settings.warning_lower = grind arith in
    ground arith

crossing :
    (a b c : Bool)
    → (a ≡ true → b ≡ true)
    → (b ≡ true → c ≡ true)
    → (if not a && b then 1 else 0) + (if not b && c then 1 else 0) ≡ (if not a && c then 1 else 0)
crossing a b c h k = ground arith

-- Over the charges of one window a counter is warned about exactly once if they take it from below
-- the threshold to it or over it, and never otherwise.
warnings_lem :
    (settings : CostSettings) (limit before : ℕ) (amounts : List ℕ)
    → warnings settings limit before amounts ≡ (
        if not (reaches settings before limit)
          && reaches settings (before + sum_of (λ n. n) amounts) limit
        then 1
        else 0)
warnings_lem settings limit before [] =
    let same : before + 0 ≡ before = omega arith in rw same (ground arith)
warnings_lem settings limit before (amount ∷ rest) =
    let total : ℕ = sum_of (λ n. n) rest in
    let same : before + (amount + total) ≡ before + amount + total = omega arith in
    rw (same, warnings_lem settings limit (before + amount) rest)
      (unfold warn_on_crossing in
        crossing (reaches settings before limit) (reaches settings (before + amount) limit)
          (reaches settings (before + amount + total) limit)
          (reaches_mono settings before (before + amount) limit (omega arith))
          (reaches_mono settings (before + amount) (before + amount + total) limit (omega arith)))

module _ (redis : Redis) (settings : CostSettings) (now : ℕ) (tenant subject : String)
    (s : redis.Store) where
  open redis use {count_at}

  abbrev pub tenant_total : ℕ
  tenant_total = amount_of (count_at now (tokens_tenant tenant) s)

  abbrev pub user_total : ℕ
  user_total = amount_of (count_at now (tokens_user tenant subject) s)

  abbrev pub BudgetSpent : Type 0
  BudgetSpent =
      (settings.cost_tokens_per_tenant_limit ≤ tenant_total)
      ⊎ (settings.cost_tokens_per_user_limit ≤ user_total)

  abbrev pub BudgetNear : Type 0
  BudgetNear =
      (settings.cost_tokens_per_tenant_limit * settings.warning_upper
        ≤ tenant_total * settings.warning_lower)
      ⊎ (settings.cost_tokens_per_user_limit * settings.warning_upper
          ≤ user_total * settings.warning_lower)

  -- What the pre-flight says, by whether the store answered.
  abbrev pub Says : Link → Preflight → Type 0
  Says answered token_budget_exceeded = BudgetSpent
  Says answered degraded = ¬ BudgetSpent × BudgetNear
  Says answered full = ¬ BudgetSpent × ¬ BudgetNear
  Says reply_lost p = p ≡ full
  Says refused p = p ≡ full

  preflight_on-Says :
      (p : Preflight)
      → preflight_on settings (some (tenant_total, user_total)) ≡ p
      → Says answered p
  unfolding preflight_on
  preflight_on-Says token_budget_exceeded h = ground arith
  preflight_on-Says degraded h = ground arith
  preflight_on-Says full h = ground arith

  -- The pre-flight never writes, whether the store answers or not. With an answer it refuses exactly
  -- when the tenant's or the user's total is at or above its limit, and else says degraded exactly
  -- when one of them is at or above the warning share of its limit; without one it lets everything
  -- through undegraded.
  token_preflight_lem :
      (link : Link)
      → let (p, s') = token_preflight redis settings link now tenant subject s in
        (s' ≡ s) × Says link p
  unfolding token_preflight
  token_preflight_lem answered =
      (refl, preflight_on-Says (preflight_on settings (some (tenant_total, user_total))) refl)
  token_preflight_lem reply_lost = (refl, refl)
  token_preflight_lem refused = (refl, refl)
