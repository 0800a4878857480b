-- ===== src/Limiter/Quota/Sequence.antt =====
-- What a tenant's requests in one window come to
-- (src/dodeal_ai/core/cost/limiter.py, `enforce_cost`).
use do_deal_ai.Prelude.{
  ℕ, ◌+◌, ◌≤◌, ◌<◌, ◌≡◌, refl, ap, ◌∙◌, Option, some, String, List, [], ◌∷◌, arith, max, ◌⊎◌, inl,
  inr,
}
use do_deal_ai.Redis.{Redis, cost_tenant, cost_user, Entry}
use do_deal_ai.Redis.Links.{Link, answered, reply_lost, refused}
use do_deal_ai.Limiter.{
  CostSettings, Verdict, allowed, enforce_cost, amount_of, tenant_quota_exceeded,
  user_quota_exceeded,
}
use do_deal_ai.Limiter.Windows.{same_counter_refl}
use do_deal_ai.Limiter.Quota.{Decides, BothCharged, enforce_cost_lem}

-- One request of the tenant, and how its call of the store went.
pub record Request : Type 0 where
  pub at : ℕ
  pub link : Link
  pub subject : String
  pub amount : ℕ

-- The requests come in order, from `now` on and before `limit`, and each costs something.
abbrev pub InWindow : ℕ → ℕ → List Request → Type 0
InWindow now limit [] = Unit
InWindow now limit (r ∷ rs) =
    (now ≤ r.at) × (r.at < limit) × (1 ≤ r.amount) × InWindow r.at limit rs

-- A request that was metered, and let through.
abbrev pub passes : Link → Verdict → ℕ
passes answered allowed = 1
passes answered _ = 0
passes _ _ = 0

passes-le : (link : Link) (v : Verdict) → passes link v ≤ 1
passes-le link v = ground arith

passes_within :
    (settings : CostSettings) (a b count : ℕ) (v : Verdict)
    → a ≡ count
    → Decides settings answered a b v
    → (passes answered v ≡ 0) ⊎ (count ≤ settings.cost_per_tenant_limit)
passes_within settings a b count allowed e h = inr (omega arith)
passes_within settings a b count tenant_quota_exceeded e h = inl refl
passes_within settings a b count user_quota_exceeded e h = inl refl

module _ (redis : Redis) (settings : CostSettings) (tenant : String) where
  open redis use {Store, count_at, count_at_later}

  -- How many of the requests were metered and let through.
  pub passed : List Request → Store → ℕ
  passed [] s = 0
  passed (r ∷ rs) s =
      let (verdict, s') = enforce_cost redis settings r.link r.at tenant r.subject r.amount s in
      passes r.link verdict + passed rs s'

  module _ (limit : ℕ) where
    -- The tenant's counter at `now`, in a window that ends at `limit`.
    abbrev Holds : ℕ → ℕ → Store → Type 0
    Holds now count s =
        count_at now (cost_tenant tenant) s ≡ some (record { value = count; expires = some limit })

    later-Holds :
        (now later count : ℕ) (s : Store)
        → now ≤ later
        → later < limit
        → Holds now count s
        → Holds later count s
    later-Holds now later count s h l e =
        let step = count_at_later now later (cost_tenant tenant) s h in ground arith

    -- One request: the count it leaves, and that a request let through leaves it within the cap.
    abbrev Step : Request → ℕ → Store → Type 0
    Step r count s =
        let (verdict, s') = enforce_cost redis settings r.link r.at tenant r.subject r.amount s in
        (after : ℕ) × Holds r.at after s'
        × (passes r.link verdict + count ≤ after)
        × ((passes r.link verdict ≡ 0) ⊎ (after ≤ settings.cost_per_tenant_limit))

    charged-Holds :
        (now count amount window : ℕ) (subject : String) (s s' : Store)
        → Holds now count s
        → BothCharged redis now tenant subject amount window s s'
        → Holds now (count + amount) s'
    charged-Holds now count amount window subject s s' h both =
        both (cost_tenant tenant) ∙ rw (same_counter_refl (cost_tenant tenant), h)

    Step-link :
        (r : Request) (link : Link) (count : ℕ) (s : Store)
        → 1 ≤ r.amount
        → Holds r.at count s
        → Step (record r { link = link }) count s
    Step-link r refused count s a h =
        let l = enforce_cost_lem redis settings refused r.at tenant r.subject r.amount s in
        (count, rw (l.0) h, omega arith, inl refl)
    Step-link r reply_lost count s a h =
        let l = enforce_cost_lem redis settings reply_lost r.at tenant r.subject r.amount s in
        (
          count + r.amount,
          charged-Holds r.at count r.amount settings.cost_window_seconds r.subject s
              (enforce_cost redis settings reply_lost r.at tenant r.subject r.amount s).1 h l.0,
          omega arith,
          inl refl,
        )
    Step-link r answered count s a h =
        let l = enforce_cost_lem redis settings answered r.at tenant r.subject r.amount s in
        (
          count + r.amount,
          charged-Holds r.at count r.amount settings.cost_window_seconds r.subject s
              (enforce_cost redis settings answered r.at tenant r.subject r.amount s).1 h l.0,
          omega (
            arith,
            passes-le answered
                (enforce_cost redis settings answered r.at tenant r.subject r.amount s).0,
          ),
          passes_within settings (amount_of (count_at r.at (cost_tenant tenant) s) + r.amount)
              (amount_of (count_at r.at (cost_user tenant r.subject) s) + r.amount)
              (count + r.amount)
              (enforce_cost redis settings answered r.at tenant r.subject r.amount s).0
              (ap (λ (e : Option (Entry ℕ)). amount_of e + r.amount) h) l.1,
        )

    passed-le :
        (rs : List Request) (now count : ℕ) (s : Store)
        → InWindow now limit rs
        → Holds now count s
        → passed rs s + count ≤ max settings.cost_per_tenant_limit count
    unfolding passed
    passed-le [] now count s w h = omega arith
    passed-le (r ∷ rs) now count s w h =
        let (after, held, grown, within) =
          Step-link r r.link count s w.2 (later-Holds now r.at count s w.0 w.1 h) in
        let rest =
          passed-le rs r.at after
            (enforce_cost redis settings r.link r.at tenant r.subject r.amount s).1 w.3 held in
        omega arith

-- A tenant's cap is never passed in a window: where its counter stands at `count` and the window ends
-- at `limit`, of any requests in that window, in order and each of an amount of at least 1, by any of
-- its users and whatever happens to their calls of the store, those that are metered and let through
-- number at most the cap less the count.
pub passed-within_quota :
    (redis : Redis) (settings : CostSettings) (tenant : String) (rs : List Request)
    (now limit count : ℕ) (s : redis.Store)
    → InWindow now limit rs
    → redis.count_at now (cost_tenant tenant) s
      ≡ some (record { value = count; expires = some limit })
    → passed redis settings tenant rs s + count ≤ max settings.cost_per_tenant_limit count
passed-within_quota redis settings tenant rs now limit count s w h =
    passed-le redis settings tenant limit rs now count s w h
