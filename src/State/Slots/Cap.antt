-- ===== src/State/Slots/Cap.antt =====
-- How many questions a note can draw
-- (src/dodeal_ai/units/structured_intelligence/state.py, `take_prompt_slots`).
use do_deal_ai.Prelude.{
  ℕ, ◌+◌, ◌≤◌, ◌<◌, ◌≡◌, refl, true, ◌&&◌, Option, none, some, String, List, [], ◌∷◌, arith,
  if◌then◌else◌, ◌⊎◌, inl, inr, ltb, ◌==◌, Bool-cases, max,
}
use do_deal_ai.Redis.{Redis, attempt, Entry, alive}
use do_deal_ai.Redis.Links.{Link, answered, reply_lost, refused}
use do_deal_ai.Limiter.Windows.{same_counter_refl}
use do_deal_ai.Limiter.{amount_of}
use do_deal_ai.Decide.{Guards}
use do_deal_ai.State.{SlotLimits, take_prompt_slots}
use do_deal_ai.State.Slots.{slot_taken, AllTaken, Answers, take_prompt_slots_lem}

-- One request for the note's next question: who asks, when, and how the call of the store goes.
pub record Ask : Type 0 where
  pub at : ℕ
  pub link : Link
  pub subject : String
  pub attempts_read : ℕ

-- The requests come in order, from `now` on and before `limit`.
abbrev pub InTime : ℕ → ℕ → List Ask → Type 0
InTime now limit [] = Unit
InTime now limit (a ∷ rest) = (now ≤ a.at) × (a.at < limit) × InTime a.at limit rest

-- Whether the store answered and its guards let a question through.
abbrev pub grants : SlotLimits → Link → Guards → ℕ
grants limits answered guards =
    if guards.rate_allowed && ltb guards.attempts limits.attempt_cap then 1 else 0
grants limits reply_lost guards = 0
grants limits refused guards = 0

module _ (redis : Redis) (limits : SlotLimits) (tenant : String) (note_id : ℕ) where
  open redis use {Store, count_at, count_at_later}

  -- How many of the requests are answered with guards that let a question through.
  pub granted : List Ask → Store → ℕ
  granted [] s = 0
  granted (a ∷ rest) s =
      let (guards, s') =
        take_prompt_slots redis limits a.link a.at tenant note_id a.subject a.attempts_read s in
      grants limits a.link guards + granted rest s'

  module _ (start limit : ℕ) (within : limit ≤ start + limits.attempt_ttl) where
    abbrev Outlives : Option ℕ → Type 0
    Outlives none = ⊥
    Outlives (some at) = limit ≤ at

    -- The counter stands at `count`: it is not there, or it outlives the window.
    abbrev Counts : Option (Entry ℕ) → ℕ → Type 0
    Counts none count = count ≡ 0
    Counts (some e) count = (e.value ≡ count) × Outlives e.expires

    abbrev Held : ℕ → ℕ → Store → Type 0
    Held now count s = Counts (count_at now (attempt tenant note_id) s) count

    counts_later :
        (later count : ℕ) (e : Option (Entry ℕ))
        → later < limit
        → Counts e count
        → Counts (elim e [ none ↦ none | some x ↦ alive later x.expires x.value ]) count
    counts_later later count none l h = h
    counts_later later count (some e) l (h, o) = go e.expires o
      where
        go : (x : Option ℕ) → Outlives x → Counts (alive later x e.value) count
        go none o' = absurd o'
        go (some at) o' = let live : ltb later at ≡ true = ground arith in rw live (h, o')

    Held-later :
        (now later count : ℕ) (s : Store)
        → now ≤ later
        → later < limit
        → Held now count s
        → Held later count s
    Held-later now later count s h l held =
        rw (count_at_later now later (attempt tenant note_id) s h)
          (counts_later later count (count_at now (attempt tenant note_id) s) l held)

    fresh :
        (now value count : ℕ)
        → start ≤ now
        → now < limit
        → value ≡ count
        → Counts (alive now (some (now + limits.attempt_ttl)) value) count
    fresh now value count b l h =
        let live : ltb now (now + limits.attempt_ttl) ≡ true = ground arith in
        rw live (h, omega arith)

    counts_taken :
        (now count : ℕ) (e : Option (Entry ℕ))
        → start ≤ now
        → now < limit
        → Counts e count
        → Counts (slot_taken now limits.attempt_ttl e) (count + 1)
    counts_taken now count none b l h = fresh now 1 (count + 1) b l (omega arith)
    counts_taken now count (some e) b l (h, o) = go e.expires o
      where
        go :
            (x : Option ℕ)
            → Outlives x
            → Counts
                (slot_taken now limits.attempt_ttl (some (record { value = e.value; expires = x })))
                (count + 1)
        go none o' = absurd o'
        go (some at) o' = elim (Bool-cases (e.value == 0)) [
          | inl z ↦ rw z (fresh now 1 (count + 1) b l (ground arith))
          | inr z ↦ rw z (omega arith, o')
        ]

    counts_amount : (count : ℕ) (e : Option (Entry ℕ)) → Counts e count → amount_of e ≡ count
    counts_amount count none h = omega arith
    counts_amount count (some e) h = h.0

    taken-Held :
        (now count : ℕ) (subject : String) (s s' : Store)
        → start ≤ now
        → now < limit
        → Held now count s
        → AllTaken redis limits now tenant note_id subject s s'
        → Held now (count + 1) s'
    taken-Held now count subject s s' b l held all =
        rw (all (attempt tenant note_id), same_counter_refl (attempt tenant note_id))
          (counts_taken now count (count_at now (attempt tenant note_id) s) b l held)

    -- One request: the count it leaves, and that guards that let it through leave it within the cap.
    abbrev Step : Link → ℕ → ℕ → Guards × Store → Type 0
    Step link now count (guards, s') =
        (after : ℕ) × Held now after s'
        × (grants limits link guards + count ≤ after)
        × ((grants limits link guards ≡ 0) ⊎ (after ≤ limits.attempt_cap))

    grants-le : (link : Link) (guards : Guards) → grants limits link guards ≤ 1
    grants-le answered guards = ground arith
    grants-le reply_lost guards = omega arith
    grants-le refused guards = omega arith

    kept-Step :
        (link : Link) (now count : ℕ) (s s' : Store) (guards : Guards)
        → Held now count s
        → s' ≡ s
        → grants limits link guards ≡ 0
        → Step link now count (guards, s')
    kept-Step link now count s s' guards held kept zero =
        (count, rw kept held, omega arith, inl zero)

    Step-link :
        (link : Link) (now count : ℕ) (subject : String) (attempts_read : ℕ) (s : Store)
        (r : Guards × Store)
        → start ≤ now
        → now < limit
        → Held now count s
        → Answers redis limits now tenant note_id subject s link attempts_read r
        → Step link now count r
    Step-link answered now count subject n s (guards, s') b l held (inl (free, g, all)) =
        let amount = counts_amount count (count_at now (attempt tenant note_id) s) held in
        (
          count + 1,
          taken-Held now count subject s s' b l held all,
          omega (arith, grants-le answered guards),
          inr (omega (arith, free.0, amount)),
        )
    Step-link answered now count subject n s (guards, s') b l held (inr (full, busy, e, kept)) =
        kept-Step answered now count s s' guards held kept (ground arith)
    Step-link refused now count subject n s (guards, s') b l held (g, kept) =
        kept-Step refused now count s s' guards held kept refl
    Step-link reply_lost now count subject n s (guards, s') b l held (g, inl (free, all)) =
        (count + 1, taken-Held now count subject s s' b l held all, omega arith, inl refl)
    Step-link reply_lost now count subject n s (guards, s') b l held (g, inr (busy, kept)) =
        kept-Step reply_lost now count s s' guards held kept refl

    granted-le :
        (asks : List Ask) (now count : ℕ) (s : Store)
        → start ≤ now
        → InTime now limit asks
        → Held now count s
        → granted asks s + count ≤ max limits.attempt_cap count
    unfolding granted
    granted-le [] now count s b w held = omega arith
    granted-le (a ∷ rest) now count s b w held =
        let (after, held', grown, within') =
          Step-link a.link a.at count a.subject a.attempts_read s
            (take_prompt_slots redis limits a.link a.at tenant note_id a.subject a.attempts_read s)
            (omega arith) w.1 (Held-later now a.at count s w.0 w.1 held)
            (take_prompt_slots_lem redis limits a.at tenant note_id a.subject s a.link
              a.attempts_read) in
        let later =
          granted-le rest a.at after
            (take_prompt_slots redis limits a.link a.at tenant note_id a.subject a.attempts_read
              s).1
            (omega arith) w.2 held' in
        omega arith

-- A note never draws more questions than the cap while the attempt counter lives: where it has no
-- counter at `start`, of any requests for it within the counter's lifetime from then on, by any
-- subjects and whatever happens to their calls of the store, those that the store answers with
-- guards that let a question through number at most the cap.
pub granted-within_cap :
    (redis : Redis) (limits : SlotLimits) (tenant : String) (note_id : ℕ) (asks : List Ask)
    (start : ℕ) (s : redis.Store)
    → InTime start (start + limits.attempt_ttl) asks
    → redis.count_at start (attempt tenant note_id) s ≡ none
    → granted redis limits tenant note_id asks s ≤ limits.attempt_cap
granted-within_cap redis limits tenant note_id asks start s w h = omega (
  arith,
  granted-le redis limits tenant note_id start (start + limits.attempt_ttl) (omega arith) asks start
      0 s (omega arith) w (rw h refl),
)
