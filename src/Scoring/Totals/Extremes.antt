-- ===== src/Scoring/Totals/Extremes.antt =====
-- The best and the worst answers
-- (src/dodeal_ai/units/structured_intelligence/scoring.py, `compute_score`).
use do_deal_ai.Prelude.{
  ok, ℕ, ◌<◌, Bool, true, false, ◌≡◌, ◌≢◌, refl, ap, Option, none, some, List, [], ◌∷◌, ◌++◌, arith,
  sum_of, ◌∙◌, any, count_if, keep_if, is_some, ◌||◌,
}
use native.Mathlib.Nat.{div-eq_of_lt, div-eq_of_lt-le}
use do_deal_ai.Schemas.{
  NoteType, ComponentName, CheckName, NoteScore, Checks, is_component, is_check, all_components,
  ns_closure, wh_outcome, wh_action, cs_present, cs_own_terms, ds_figures, ds_subject, ds_timing,
  cl_readable, cl_substance,
}
use do_deal_ai.TenantConfig.{TenantConfig, full_marks_at}
use do_deal_ai.TenantConfig.Default.{default_checks}
use do_deal_ai.TenantConfig.Marks.{split_mark_full, split_mark_zero, full_marks_at_pos}
use do_deal_ai.Scoring.{
  applicable_components, applicable_checks, applies, checks_of, percent_of, compute_score, is_true,
}
use do_deal_ai.Scoring.Answers.{AnswersExactly}
use do_deal_ai.Scoring.Marks.{mark_value}
use do_deal_ai.Scoring.Totals.{denominator_of, raw_of, IsScored, compute_score-IsScored}

module _ {ℓ} {A : Type ℓ} where
  any-append : (p : A → Bool) (xs ys : List A) → any p (xs ++ ys) ≡ (any p xs || any p ys)
  any-append p [] ys = refl
  any-append p (x ∷ xs) ys = ground (arith, any-append p xs ys)

  sum_of-keep_if :
      (p : A → Bool) (f g : A → ℕ) (xs : List A)
      → ((x : A) → p x ≡ true → f x ≡ g x)
      → sum_of f (keep_if p xs) ≡ sum_of g (keep_if p xs)
  sum_of-keep_if p f g [] h = refl
  sum_of-keep_if p f g (x ∷ xs) h = ground (arith, h x, sum_of-keep_if p f g xs h)

pub component_eq : (a b : ComponentName) → is_component a b ≡ true → a ≡ b
component_eq a b h = ground arith

-- The check of a component that applies is asked.
any-keep_if :
    (p : ComponentName → Bool) (c : ComponentName) (xs : List ComponentName)
    → p c ≡ true
    → any (is_component c) xs ≡ true
    → any (is_component c) (keep_if p xs) ≡ true
any-keep_if p c [] pc h = cc
any-keep_if p c (x ∷ xs) pc h = ground (arith, component_eq c x, any-keep_if p c xs pc)

any-checks_of :
    (config : TenantConfig) (check : CheckName) (c : ComponentName) (cs : List ComponentName)
    → any (is_component c) cs ≡ true
    → any (is_check check) (config.checks_by_component c) ≡ true
    → any (is_check check) (checks_of config cs) ≡ true
unfolding checks_of
any-checks_of config check c [] h k = cc
any-checks_of config check c (x ∷ xs) h k =
    rw any-append (ground (arith, component_eq c x, any-checks_of config check c xs))

pub every_component : (c : ComponentName) → any (is_component c) all_components ≡ true
every_component ComponentName.clarity = refl
every_component c = refl

true_of : (o : Option Bool) → is_some o ≡ true → o ≢ some false → is_true o ≡ true
true_of none h k = cc
true_of (some true) h k = refl
true_of (some false) h k = absurd (k refl)

false_of : (o : Option Bool) → o ≢ some true → is_true o ≡ false
false_of none k = refl
false_of (some true) k = absurd (k refl)
false_of (some false) k = refl

module _ (config : TenantConfig) (kept : config.checks_by_component ≡ default_checks)
    (checks : Checks) where
  full_mark :
      (c : ComponentName)
      → ((check : CheckName)
          → any (is_check check) (default_checks c) ≡ true
          → is_true (checks check) ≡ true)
      → mark_value checks config c ≡ config.weights c
  unfolding mark_value full_marks_at
  full_mark ComponentName.what_happened t =
      let here : config.checks_by_component ComponentName.what_happened
          ≡ wh_outcome ∷ wh_action ∷ [] =
        ap (λ f. f ComponentName.what_happened) kept in
      rw (here, t wh_outcome refl, t wh_action refl)
        (split_mark_full (config.weights ComponentName.what_happened) 2 2 (omega arith)
          (omega arith))
  full_mark ComponentName.client_said t =
      let here : config.checks_by_component ComponentName.client_said
          ≡ cs_present ∷ cs_own_terms ∷ [] =
        ap (λ f. f ComponentName.client_said) kept in
      rw (here, t cs_present refl, t cs_own_terms refl)
        (split_mark_full (config.weights ComponentName.client_said) 2 2 (omega arith) (omega arith))
  full_mark ComponentName.next_step_date t = rw (t ns_closure refl)
  full_mark ComponentName.deal_specifics t =
      let here : config.checks_by_component ComponentName.deal_specifics
          ≡ ds_figures ∷ ds_subject ∷ ds_timing ∷ [] =
        ap (λ f. f ComponentName.deal_specifics) kept in
      rw (here, t ds_figures refl, t ds_subject refl, t ds_timing refl)
        (split_mark_full (config.weights ComponentName.deal_specifics) 3 3 (omega arith)
          (omega arith))
  full_mark ComponentName.clarity t =
      let here : config.checks_by_component ComponentName.clarity
          ≡ cl_readable ∷ cl_substance ∷ [] =
        ap (λ f. f ComponentName.clarity) kept in
      rw (here, t cl_readable refl, t cl_substance refl)
        (split_mark_full (config.weights ComponentName.clarity) 2 2 (omega arith) (omega arith))

  asked_check :
      (note_type : NoteType) (c : ComponentName) (check : CheckName)
      → applies note_type config c ≡ true
      → any (is_check check) (default_checks c) ≡ true
      → any (is_check check) (applicable_checks note_type config) ≡ true
  unfolding applicable_checks
  asked_check note_type c check a h =
      any-checks_of config check c (applicable_components note_type config)
        (any-keep_if (applies note_type config) c all_components a (every_component c)) (rw kept h)

  raw_of-full :
      (note_type : NoteType)
      → AnswersExactly checks note_type config
      → ((check : CheckName) → checks check ≢ some false)
      → raw_of checks note_type config ≡ denominator_of note_type config
  unfolding applicable_components
  raw_of-full note_type answered no_false =
      sum_of-keep_if (applies note_type config) (mark_value checks config) config.weights
        all_components
        (λ c a. full_mark c (λ check h.
          true_of (checks check) (answered check ∙ asked_check note_type c check a h)
            (no_false check)))

percent_of_self : (d : ℕ) → 0 < d → percent_of d d ≡ 100
unfolding percent_of
percent_of_self d positive = div-eq_of_lt-le d (omega arith) (omega arith)

percent_of_zero : (d : ℕ) → 0 < d → percent_of 0 d ≡ 0
unfolding percent_of
percent_of_zero d positive = div-eq_of_lt (omega arith)

-- With the default check lists, a score with no answer false has total 100.
compute_score_best :
    (checks : Checks) (note_type : NoteType) (config : TenantConfig) (s : NoteScore)
    → config.checks_by_component ≡ default_checks
    → compute_score checks note_type config ≡ ok s
    → ((check : CheckName) → checks check ≢ some false)
    → s.total ≡ 100
compute_score_best checks note_type config s kept e no_false =
    let a : IsScored checks note_type config s =
      compute_score-IsScored checks note_type config s e in
    ap (λ (r : NoteScore). r.total) a.computed
    ∙ (ap (λ (n : ℕ). percent_of n (denominator_of note_type config))
          (raw_of-full config kept checks note_type a.answered no_false)
        ∙ percent_of_self (denominator_of note_type config) a.positive)

count_if_none :
    (checks : Checks) (cs : List CheckName)
    → ((check : CheckName) → checks check ≢ some true)
    → count_if (λ check. is_true (checks check)) cs ≡ 0
count_if_none checks [] h = refl
count_if_none checks (c ∷ cs) h =
    ground (arith, false_of (checks c) (h c), count_if_none checks cs h)

zero_mark :
    (config : TenantConfig) (checks : Checks) (c : ComponentName)
    → ((check : CheckName) → checks check ≢ some true)
    → mark_value checks config c ≡ 0
unfolding mark_value
zero_mark config checks c h = ground (
  arith,
  false_of (checks ns_closure) (h ns_closure),
  count_if_none checks (config.checks_by_component c) h,
  split_mark_zero (config.weights c) (full_marks_at c (config.checks_by_component c))
      (full_marks_at_pos c (config.checks_by_component c)),
)

sum_of_zero :
    (f : ComponentName → ℕ) (cs : List ComponentName)
    → ((c : ComponentName) → f c ≡ 0)
    → sum_of f cs ≡ 0
sum_of_zero f [] h = refl
sum_of_zero f (c ∷ cs) h = omega (arith, h c, sum_of_zero f cs h)

-- For any rubric, a score with no answer true has total 0.
compute_score_worst :
    (checks : Checks) (note_type : NoteType) (config : TenantConfig) (s : NoteScore)
    → compute_score checks note_type config ≡ ok s
    → ((check : CheckName) → checks check ≢ some true)
    → s.total ≡ 0
compute_score_worst checks note_type config s e no_true =
    let a : IsScored checks note_type config s =
      compute_score-IsScored checks note_type config s e in
    ap (λ (r : NoteScore). r.total) a.computed
    ∙ (ap (λ (n : ℕ). percent_of n (denominator_of note_type config))
          (sum_of_zero (mark_value checks config) (applicable_components note_type config)
            (λ c. zero_mark config checks c no_true))
        ∙ percent_of_zero (denominator_of note_type config) a.positive)
