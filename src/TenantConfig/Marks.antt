-- ===== src/TenantConfig/Marks.antt =====
-- The marks that are derived from a weight
-- (src/dodeal_ai/units/structured_intelligence/config.py, `_derive_marks`).
use do_deal_ai.Prelude.{
  ℕ, zero, suc, ◌+◌, ◌*◌, ◌/◌, ◌≤◌, ◌<◌, ◌≡◌, ◌∙◌, ap, ◌⊎◌, inl, inr, List, some, arith, get_elem?,
  length, min, max,
}
use native.Mathlib.Nat.{div-eq_of_lt-le, add-zero}
use native.Mathlib.Decide.{dec_lt}
use do_deal_ai.Schemas.{ComponentName, CheckName}
use do_deal_ai.TenantConfig.{
  TenantConfig, full_marks_at, split_mark, mark_table, marks_by_true_count,
}

pub div_mono : (d a b : ℕ) → 0 < d → a ≤ b → a / d ≤ b / d
div_mono d a b positive h = grind arith

mul_mono : (w a b : ℕ) → a ≤ b → w * a ≤ w * b
mul_mono w a b h = grind arith

pub split_mark_mono :
    (w full j k : ℕ) → 0 < full → j ≤ k → split_mark w full j ≤ split_mark w full k
unfolding split_mark
split_mark_mono w full j k positive h =
    div_mono (2 * full) (w * min j full * 2 + full) (w * min k full * 2 + full) (omega arith)
      (omega (arith, mul_mono w (min j full) (min k full) (omega arith)))

pub split_mark_full : (w full k : ℕ) → 0 < full → full ≤ k → split_mark w full k ≡ w
unfolding split_mark
split_mark_full w full k positive h =
    let least : min k full ≡ full = omega arith in
    rw least (div-eq_of_lt-le (2 * full) (omega arith) (omega arith))

pub split_mark_zero : (w full : ℕ) → 0 < full → split_mark w full 0 ≡ 0
unfolding split_mark
split_mark_zero w full positive = grind arith

get_elem?-mark_table :
    (w full t n k : ℕ)
    → k ≤ n
    → get_elem? (mark_table w full t n) k ≡ some (split_mark w full (t + k))
unfolding mark_table
get_elem?-mark_table w full t zero zero h = rw add-zero
get_elem?-mark_table w full t (suc n) zero h = rw add-zero
get_elem?-mark_table w full t zero (suc k) h = elim h [ ]
get_elem?-mark_table w full t (suc n) (suc k) h =
    rw (get_elem?-mark_table w full (t + 1) n k (omega arith))
      (let e : t + 1 + k ≡ t + suc k = omega arith in rw e)

pub split_mark-le : (w full k : ℕ) → 0 < full → split_mark w full k ≤ w
split_mark-le w full k positive = omega (
  arith,
  split_mark_mono w full k (max k full) positive (omega arith),
  split_mark_full w full (max k full) positive (omega arith),
)

pub full_marks_at_pos : (c : ComponentName) (checks : List CheckName) → 0 < full_marks_at c checks
unfolding full_marks_at
full_marks_at_pos c checks = omega arith

-- The mark that the table holds for `k` true checks.
abbrev pub mark_of : TenantConfig → ComponentName → ℕ → ℕ
mark_of config c k =
    split_mark (config.weights c) (full_marks_at c (config.checks_by_component c)) k

pub get_elem?-marks :
    (config : TenantConfig) (c : ComponentName) (k : ℕ)
    → k ≤ length (config.checks_by_component c)
    → get_elem? (marks_by_true_count config c) k ≡ some (mark_of config c k)
unfolding marks_by_true_count
get_elem?-marks config c k h =
    let checks : List CheckName = config.checks_by_component c in
    get_elem?-mark_table (config.weights c) (full_marks_at c checks) 0 (length checks) k h
    ∙ ap (λ (t : ℕ). some (mark_of config c t)) (omega arith)

-- The mark of a component by its count of true checks, for any weights and check lists: none true
-- earns 0; for counts j ≤ k up to the number of checks the table has the entries, m for j and n for
-- k, with m ≤ n and n at most the weight; and n is exactly the weight once k reaches the full-marks
-- count.
marks_lem :
    (config : TenantConfig) (c : ComponentName) (j k : ℕ)
    → j ≤ k
    → k ≤ length (config.checks_by_component c)
    → let table = marks_by_true_count config c in
      (get_elem? table 0 ≡ some 0)
      × (m : ℕ) × (n : ℕ) × (get_elem? table j ≡ some m)
      × (get_elem? table k ≡ some n)
      × (m ≤ n)
      × (n ≤ config.weights c)
      × ((n ≡ config.weights c) ⊎ (k < full_marks_at c (config.checks_by_component c)))
marks_lem config c j k h l =
    let w : ℕ = config.weights c in
    let full : ℕ = full_marks_at c (config.checks_by_component c) in
    let positive : 0 < full = full_marks_at_pos c (config.checks_by_component c) in
    (
      get_elem?-marks config c 0 (omega arith) ∙ ap some (split_mark_zero w full positive),
      mark_of config c j,
      mark_of config c k,
      get_elem?-marks config c j (omega arith),
      get_elem?-marks config c k l,
      split_mark_mono w full j k positive h,
      split_mark-le w full k positive,
      elim (dec_lt k full) [
        | yes below ↦ inr below
        | no reached ↦ inl (split_mark_full w full k positive (omega arith))
      ],
    )
