-- ===== src/Middleware/Inflight/Count.antt =====
-- The count is the number of requests that hold a slot (src/dodeal_ai/core/inflight.py).
use do_deal_ai.Prelude.{
  ℕ, suc, ◌≤◌, ◌≡◌, refl, ap, ◌∙◌, ◌↔◌, Bool, true, false, List, [], ◌∷◌, ◌++◌, String, leb, leb→le,
  length, arith, Bool-cases, inl, inr,
}
use do_deal_ai.Middleware.Inflight.{
  acquire, release, is_exempt, Process, Arrival, passed, admitted, shed, arrive, leave, Step,
  arrives, leaves, exempt_leaves, Reachable, at_start, then_step,
}

pub record IsCounted (limit : ℕ) (s : Process) : Type 0 where
  pub counted : s.count ≡ length s.holding
  pub within : s.count ≤ limit

length-without :
    (before after : List ℕ) (id : ℕ)
    → length (before ++ id ∷ after) ≡ suc (length (before ++ after))
length-without [] after id = refl
length-without (x ∷ before) after id = ap suc (length-without before after id)

Step-IsCounted :
    {limit : ℕ} {s t : Process} → Step limit s t → IsCounted limit s → IsCounted limit t
unfolding arrive acquire leave release
Step-IsCounted {limit} {s} (arrives id path) c =
    let counted = c.counted in
    let room = c.within in
    elim (Bool-cases (is_exempt path)) [
      | inl e ↦ rw e (record { counted = counted; within = room })
      | inr e ↦ elim (Bool-cases (leb limit s.count)) [
        | inl full ↦ rw (e, full) (record { counted = counted; within = room })
        | inr free ↦
            rw (e, free)
              (record { counted = omega (arith, counted); within = ground (arith, free) })
      ]
    ]
Step-IsCounted {limit} {s} (leaves id before after e) c =
    let counted = c.counted in
    let room = c.within in
    let one_less = ap length e ∙ length-without before after id in
    record { counted = omega (arith, counted, one_less); within = omega (arith, room) }
Step-IsCounted (exempt_leaves id before after e) c = record {
  counted = c.counted;
  within = c.within;
}

-- In every state that the process can come to, the counter is the number of requests that hold a slot,
-- never more than the limit, so it is back at 0 when none does and a release
-- never takes it below 0.
pub Reachable-IsCounted : {limit : ℕ} {s : Process} → Reachable limit s → IsCounted limit s
Reachable-IsCounted at_start = record { counted = refl; within = omega arith }
Reachable-IsCounted (then_step r step) = Step-IsCounted step (Reachable-IsCounted r)

abbrev pub is_shed : Arrival → Bool
is_shed passed = false
is_shed admitted = false
is_shed shed = true

-- In every state that the process can come to, a request is shed exactly where its path is not exempt
-- and as many requests as the limit hold a slot: none leaks, whatever came before.
shed_iff :
    (limit id : ℕ) (path : String) (s : Process)
    → Reachable limit s
    → (is_shed (arrive limit id path s).0 ≡ true)
      ↔ ((is_exempt path ≡ false) × (length s.holding ≡ limit))
unfolding arrive acquire
shed_iff limit id path s r =
    let c = Reachable-IsCounted r in
    let counted = c.counted in
    let room = c.within in
    elim (Bool-cases (is_exempt path)) [
      | inl e ↦ (λ h. absurd (ground (arith, e, h)), λ h. absurd (cc (e, h.0)))
      | inr e ↦ elim (Bool-cases (leb limit s.count)) [
        | inl full ↦ (
          λ h. (e, let at = leb→le limit s.count full in omega (arith, at, counted, room)),
          λ h. rw (e, full) refl,
        )
        | inr free ↦ (
          λ h. absurd (ground (arith, e, free, h)),
          λ h. absurd (ground (arith, free, counted, h.1)),
        )
      ]
    ]
