-- ===== src/Scoring/Marks.antt =====
-- Marks and their sum (src/dodeal_ai/units/structured_intelligence/scoring.py, `_mark_for`).
use do_deal_ai.Prelude.{
  ok, ℕ, ◌+◌, ◌≤◌, true, ◌≡◌, refl, ap, some, List, [], ◌∷◌, arith, count_if, count_if-le-length,
  sum_of, map, ◌&&◌, if◌then◌else◌,
}
use do_deal_ai.Schemas.{ComponentName, CheckName, Checks, ns_closure, is_component}
use do_deal_ai.TenantConfig.{TenantConfig, full_marks_at}
use do_deal_ai.TenantConfig.Marks.{
  mark_of, get_elem?-marks, split_mark-le, full_marks_at_pos, split_mark_mono,
}
use do_deal_ai.Scoring.{is_true, mark_for, marks_for}

-- How many checks of the component came back true.
abbrev pub true_count : ComponentName → Checks → TenantConfig → ℕ
true_count c checks config =
    count_if (λ check. is_true (checks check)) (config.checks_by_component c)

-- The mark, with no failure.
unfoldable pub mark_value : Checks → TenantConfig → ComponentName → ℕ
mark_value checks config c =
    if is_component c ComponentName.next_step_date && is_true (checks ns_closure)
    then config.weights c
    else mark_of config c (true_count c checks config)

mark_for_lem :
    (c : ComponentName) (checks : Checks) (config : TenantConfig)
    → mark_for c checks config ≡ some (mark_value checks config c)
unfolding mark_for mark_value
mark_for_lem c checks config = ground (
  arith,
  get_elem?-marks config c (true_count c checks config)
      (count_if-le-length (λ check. is_true (checks check)) (config.checks_by_component c)),
)

pub mark_value-le :
    (checks : Checks) (config : TenantConfig) (c : ComponentName)
    → mark_value checks config c ≤ config.weights c
unfolding mark_value
mark_value-le checks config c = ground (
  arith,
  split_mark-le (config.weights c) (full_marks_at c (config.checks_by_component c))
      (true_count c checks config) (full_marks_at_pos c (config.checks_by_component c)),
)

pub marks_for_lem :
    (checks : Checks) (config : TenantConfig) (cs : List ComponentName)
    → marks_for checks config cs ≡ ok (map (λ c. (c, mark_value checks config c)) cs)
unfolding marks_for
marks_for_lem checks config [] = refl
marks_for_lem checks config (c ∷ cs) = rw (mark_for_lem, marks_for_lem checks config cs)

pub sum_of-marks :
    (checks : Checks) (config : TenantConfig) (cs : List ComponentName)
    → sum_of
        (λ (entry : ComponentName × ℕ). entry.1)
        (map (λ c. (c, mark_value checks config c)) cs)
      ≡ sum_of (mark_value checks config) cs
sum_of-marks checks config [] = refl
sum_of-marks checks config (c ∷ cs) =
    ap (λ (n : ℕ). mark_value checks config c + n) (sum_of-marks checks config cs)

-- Answers that are true wherever the others are.
abbrev pub Improves : Checks → Checks → Type 0
Improves before after =
    (check : CheckName) → is_true (before check) ≡ true → is_true (after check) ≡ true

count_if_mono :
    (before after : Checks) (cs : List CheckName)
    → Improves before after
    → count_if (λ c. is_true (before c)) cs ≤ count_if (λ c. is_true (after c)) cs
count_if_mono before after [] h = omega arith
count_if_mono before after (c ∷ cs) h = ground (arith, h c, count_if_mono before after cs h)

pub mark_value_mono :
    (before after : Checks) (config : TenantConfig) (c : ComponentName)
    → Improves before after
    → mark_value before config c ≤ mark_value after config c
unfolding mark_value
mark_value_mono before after config c h = ground (
  arith,
  h ns_closure,
  split_mark-le (config.weights c) (full_marks_at c (config.checks_by_component c))
      (true_count c before config) (full_marks_at_pos c (config.checks_by_component c)),
  split_mark_mono (config.weights c) (full_marks_at c (config.checks_by_component c))
      (true_count c before config) (true_count c after config)
      (full_marks_at_pos c (config.checks_by_component c))
      (count_if_mono before after (config.checks_by_component c) h),
)
