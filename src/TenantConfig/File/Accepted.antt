-- ===== src/TenantConfig/File/Accepted.antt =====
-- What a configuration that was built from a tenant's file has
-- (src/dodeal_ai/units/structured_intelligence/config.py, `build` and `_check`).
use do_deal_ai.Prelude.{
  err, ok, ◌>>◌, ℕ, ◌+◌, ◌≤◌, ◌<◌, ◌≡◌, refl, ◌⊎◌, inl, inr, List, [], ◌∷◌, some, none, arith,
  sum_of, Bool, true, false, Option,
}
use do_deal_ai.Prelude.Int.{ℤ, pos}
use do_deal_ai.Schemas.{ComponentName, Band, all_components}
use do_deal_ai.TenantConfig.{TenantConfig}
use do_deal_ai.TenantConfig.Default.{default_checks, default_suppressed}
use do_deal_ai.TenantConfig.Bands.{HasBands}
use do_deal_ai.TenantConfig.File.{
  TenantConfigFile, Result, build, parse_unit_a_section, check_boundaries, some_weight_applies,
  replace_default, field_bounds, max_note_text_chars, check_weights, refuse_unless, ConfigError,
}

check_boundaries-HasBands :
    (set : Option (List (Band × ℤ))) (bs : List (Band × ℕ))
    → check_boundaries set ≡ ok bs
    → HasBands bs
unfolding check_boundaries
check_boundaries-HasBands none bs h = record {
  poor_upper = 39;
  fair_upper = 69;
  good_upper = 84;
  listed = ground arith;
  poor_below = omega arith;
  fair_below = omega arith;
  good_below = omega arith;
}
check_boundaries-HasBands (some []) bs h = cc
check_boundaries-HasBands (some ((b1, pos u1) ∷ (b2, pos u2) ∷ (b3, pos u3) ∷ (b4, pos u4) ∷ [])) bs
      h =
    record {
      poor_upper = u1;
      fair_upper = u2;
      good_upper = u3;
      listed = ground arith;
      poor_below = ground arith;
      fair_below = ground arith;
      good_below = ground arith;
    }
check_boundaries-HasBands (some other) bs h = absurd (ground arith)

-- What every configuration that came from a file has: the default's checks, suppressions and business
-- line switch, weights that sum to 100 and not all on the
-- component that nothing is scored by, four rising bands that end at 100, ordered thresholds and
-- note bounds within their limits, and no zero where a zero would switch a measure or a window off.
pub record IsAccepted (config : TenantConfig) : Type 0 where
  pub weights_sum : sum_of config.weights all_components ≡ 100
  pub checks_kept : config.checks_by_component ≡ default_checks
  pub types_kept : config.suppressed_components_by_type ≡ default_suppressed
  pub line_kept : config.deal_specifics_applicable ≡ false
  pub scored_weight :
      0
      < config.weights ComponentName.what_happened
        + config.weights ComponentName.client_said
        + config.weights ComponentName.next_step_date
        + config.weights ComponentName.clarity
  pub bands : HasBands config.band_boundaries
  pub flag_below : config.flag_threshold < config.accept_threshold
  pub accept_most : config.accept_threshold ≤ 100
  pub note_least : 1 ≤ config.min_note_chars
  pub note_order : config.min_note_chars < config.max_note_chars
  pub note_most : config.max_note_chars ≤ max_note_text_chars
  pub floor_least : 1 ≤ config.measure_evidence_floor
  pub days_least : 1 ≤ config.rolling_window_days
  pub window_least : 1 ≤ config.rate_limit_window_seconds
  pub attempt_ttl_least : 1 ≤ config.attempt_ttl_seconds
  pub idempotency_ttl_least : 1 ≤ config.idempotency_ttl_seconds

Result-cases {ℓ} :
    {A : Type ℓ} (r : Result A) → ((a : A) × (r ≡ ok a)) ⊎ ((e : ConfigError) × (r ≡ err e))
Result-cases (ok a) = inl (a, refl)
Result-cases (err e) = inr (e, refl)

refused_unless {ℓ} :
    {B : Type ℓ} (test : Bool) (e : ConfigError) (k : Result B) {b : B}
    → (refuse_unless test e >> k) ≡ ok b
    → (test ≡ true) × (k ≡ ok b)
refused_unless true e k h = (refl, h)
refused_unless false e k h = cc

scored_weight_of :
    (set : ComponentName → ℕ)
    → some_weight_applies set false ≡ true
    → 0
      < set ComponentName.what_happened
        + set ComponentName.client_said
        + set ComponentName.next_step_date
        + set ComponentName.clarity
unfolding some_weight_applies
scored_weight_of set h = ground arith

-- The tests that `build` passed on its way to a configuration.
record IsBuilt (file : TenantConfigFile) (config : TenantConfig) : Type 0 where
  set_weights : ComponentName → ℕ
  boundaries : List (Band × ℕ)
  replaced : config ≡ replace_default file set_weights boundaries
  hundred : sum_of set_weights all_components ≡ 100
  applies : some_weight_applies set_weights false ≡ true
  checked : check_boundaries file.boundaries_set ≡ ok boundaries
  flag_order :
      (replace_default file set_weights boundaries).flag_threshold
      < (replace_default file set_weights boundaries).accept_threshold
  note_order :
      (replace_default file set_weights boundaries).min_note_chars
      < (replace_default file set_weights boundaries).max_note_chars

build-IsBuilt :
    (file : TenantConfigFile) (config : TenantConfig) → build file ≡ ok config → IsBuilt file config
unfolding build
build-IsBuilt file config h = elim (Result-cases (check_weights file.weights_set)) [
  | inl (ws, e) ↦ elim (Result-cases (check_boundaries file.boundaries_set)) [
    | inl (bs, e') ↦ record {
      set_weights = ws;
      boundaries = bs;
      replaced = ground arith;
      hundred = ground arith;
      applies = ground arith;
      checked = e';
      flag_order = ground arith;
      note_order = ground arith;
    }
    | inr (x, e') ↦ absurd (ground arith)
  ]
  | inr (x, e) ↦ absurd (ground arith)
]

module _ (file : TenantConfigFile) (bounds : field_bounds file ≡ true) where
  numbers_of :
      (set : ComponentName → ℕ) (bs : List (Band × ℕ))
      → let config = replace_default file set bs in
        (config.accept_threshold ≤ 100)
        × (1 ≤ config.min_note_chars)
        × (config.max_note_chars ≤ max_note_text_chars)
        × (1 ≤ config.measure_evidence_floor)
        × (1 ≤ config.rolling_window_days)
        × (1 ≤ config.rate_limit_window_seconds)
        × (1 ≤ config.attempt_ttl_seconds)
        × (1 ≤ config.idempotency_ttl_seconds)
  unfolding field_bounds replace_default
  numbers_of set bs = (
    ground arith,
    ground arith,
    ground arith,
    ground arith,
    ground arith,
    ground arith,
    ground arith,
    ground arith,
  )

  build-IsAccepted : (config : TenantConfig) → build file ≡ ok config → IsAccepted config
  unfolding replace_default
  build-IsAccepted config h =
      let b : IsBuilt file config = build-IsBuilt file config h in
      let n = numbers_of b.set_weights b.boundaries in
      rw (b.replaced) (record {
        weights_sum = b.hundred;
        checks_kept = refl;
        types_kept = refl;
        line_kept = refl;
        scored_weight = scored_weight_of b.set_weights b.applies;
        bands = check_boundaries-HasBands file.boundaries_set b.boundaries b.checked;
        flag_below = b.flag_order;
        accept_most = n.0;
        note_least = n.1;
        note_order = b.note_order;
        note_most = n.2;
        floor_least = n.3;
        days_least = n.4;
        window_least = n.5;
        attempt_ttl_least = n.6;
        idempotency_ttl_least = n.7;
      })

-- Whatever section is parsed to a configuration, that configuration has the default's checks,
-- suppressions and business line switch, weights that sum to 100 with some on a component other than
-- the deal specifics, four rising bands that end at 100, a flag threshold below an accept threshold
-- of at most 100, a length floor of at least 1 below a ceiling of at most 4000, and at least 1 for
-- the evidence floor, the rolling days, the rate window and both lifetimes.
pub parse_unit_a_section-IsAccepted :
    (file : TenantConfigFile) (config : TenantConfig)
    → parse_unit_a_section file ≡ ok config
    → IsAccepted config
unfolding parse_unit_a_section
parse_unit_a_section-IsAccepted file config h =
    let (bounds, built) = refused_unless (field_bounds file) ConfigError.field (build file) h in
    build-IsAccepted file bounds config built
