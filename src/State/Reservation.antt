-- ===== src/State/Reservation.antt =====
-- The life of an idempotency key
-- (src/dodeal_ai/units/structured_intelligence/state.py, the idempotency functions).
pub mod Life
mod Visits
pub use Visits.*
use do_deal_ai.Prelude.{
  ℕ, ◌+◌, ◌≤◌, ◌<◌, ◌≡◌, ◌≢◌, refl, ap, sym, ◌∙◌, Bool, true, false, not, Option, none, some,
  String, List, [], ◌∷◌, arith, if◌then◌else◌, is_some, ◌⊎◌, inl, inr, ltb, ◌==◌, ==_refl,
  Option-cases, Bool-cases, lt→ltb,
}
use text.Mathlib.Text.{◌==◌ as str_eq}
use text.Mathlib.TextPositions.{eq_refl}
use text.Mathlib.TextEquality.{eq_iff}
use do_deal_ai.Redis.{Redis, TextKey, idempotency, same_text, Entry, alive}
use do_deal_ai.Redis.Links.{Link, answered, reply_lost, refused}
use do_deal_ai.State.{
  reserved, reserve_idempotency, release_idempotency, confirm_idempotency, read_confirmed_judgement,
  take_over_idempotency, confirmed_in, text_of, holds_text,
}

pub same_key :
    (t : String) (n : ℕ) (f : String) → same_text (idempotency t n f) (idempotency t n f) ≡ true
same_key t n f = rw (eq_refl t, ==_refl n, eq_refl f)

pub different_texts : (a b : String) → a ≢ b → str_eq a b ≡ false
different_texts a b h = elim (Bool-cases (str_eq a b)) [
  | inl e ↦ absurd (h ((eq_iff a b).0 e))
  | inr e ↦ e
]

-- An answer that claims the key.
abbrev pub claims_one : Option Bool → ℕ
claims_one none = 0
claims_one (some claimed) = if claimed then 1 else 0

module _ (redis : Redis) (tenant : String) (note_id : ℕ) (fingerprint : String) where
  open redis use {
    Store, text_at, set_nx, set_xx, set_ex, delete, text_at_later, text_at-set_ex, set_nx_lem,
    set_xx_lem, text_at-delete,
  }

  abbrev pub key : TextKey
  key = idempotency tenant note_id fingerprint

  pub written :
      (now later : ℕ) (v : String) (ttl : ℕ) (s : Store)
      → now ≤ later
      → later < now + ttl
      → text_at later key (set_ex now key v ttl s)
        ≡ some (record { value = v; expires = some (now + ttl) })
  written now later v ttl s h l =
      let soon : ltb now (now + ttl) ≡ true = lt→ltb now (now + ttl) (omega arith) in
      let still : ltb later (now + ttl) ≡ true = lt→ltb later (now + ttl) l in
      rw (
        text_at_later now later key (set_ex now key v ttl s) h,
        text_at-set_ex now key key v ttl s,
        same_key tenant note_id fingerprint,
        soon,
        still,
      )

  -- Whether a call reserves the key, and the store after it.
  abbrev pub made : ℕ → ℕ → Link → Command → Store → ℕ × Store
  made ttl now link reserves s =
      let (answer, s') = reserve_idempotency redis link now tenant note_id fingerprint ttl s in
      (claims_one answer, s')
  made ttl now link releases s = (0, release_idempotency redis link tenant note_id fingerprint s)
  made ttl now link (confirms json lifetime) s =
      (0, confirm_idempotency redis link now tenant note_id fingerprint json lifetime s)
  made ttl now link (takes_over expected) s =
      (0, (take_over_idempotency redis link now tenant note_id fingerprint expected ttl s).1)

  -- How many of the calls reserve the key, each for `ttl`.
  abbrev pub claims : ℕ → List Visit → Store → ℕ
  claims ttl [] s = 0
  claims ttl (visit at link command ∷ rest) s =
      (made ttl at link command s).0 + claims ttl rest (made ttl at link command s).1

  module _ (ttl limit : ℕ) where
    -- The key is there and stays to the end of the window.
    abbrev Locked : ℕ → Store → Type 0
    Locked now s =
        (v : String) × (at : ℕ) × (limit ≤ at)
        × (text_at now key s ≡ some (record { value = v; expires = some at }))

    Locked-later :
        (now later : ℕ) (s : Store) → now ≤ later → later < limit → Locked now s → Locked later s
    Locked-later now later s h l (v, at, outlives, e) =
        let still : ltb later at ≡ true = lt→ltb later at (omega arith) in
        (v, at, outlives, rw (text_at_later now later key s h, e, still))

    reserve-Locked :
        (link : Link) (now : ℕ) (s : Store)
        → Locked now s
        → let (answer, s') = reserve_idempotency redis link now tenant note_id fingerprint ttl s in
          (claims_one answer ≡ 0) × (s' ≡ s)
    unfolding reserve_idempotency
    reserve-Locked answered now s (v, at, o, e) =
        rw (set_nx_lem now key reserved ttl s, e) (refl, refl)
    reserve-Locked reply_lost now s (v, at, o, e) =
        (refl, rw (set_nx_lem now key reserved ttl s, e))
    reserve-Locked refused now s (v, at, o, e) = (refl, refl)

    -- A reservation leaves the key as it was without claiming it, or it locks it.
    reserve_cases :
        (link : Link) (now : ℕ) (s : Store)
        → limit ≤ now + ttl
        → now < limit
        → let (answer, s') = reserve_idempotency redis link now tenant note_id fingerprint ttl s in
          (claims_one answer ≡ 0) ⊎ ((claims_one answer ≤ 1) × Locked now s')
    unfolding reserve_idempotency
    reserve_cases reply_lost now s b l = inl refl
    reserve_cases refused now s b l = inl refl
    reserve_cases answered now s b l = elim (Option-cases (text_at now key s)) [
      | inr (x, e) ↦ inl (rw e refl)
      | inl e ↦ inr (
        rw e (omega arith),
        (
          reserved,
          now + ttl,
          b,
          rw (set_nx_lem now key reserved ttl s, e)
              (written now now reserved ttl s (omega arith) (omega arith)),
        ),
      )
    ]

    rewritten :
        (now lifetime : ℕ) (v : String) (s : Store)
        → limit ≤ now + lifetime
        → now < limit
        → Locked now (set_ex now key v lifetime s)
    rewritten now lifetime v s b l =
        (v, now + lifetime, b, written now now v lifetime s (omega arith) (omega arith))

    -- A confirmation and a take-over keep the key locked.
    confirm-Locked :
        (link : Link) (now : ℕ) (json : String) (lifetime : ℕ) (s : Store)
        → limit ≤ now + lifetime
        → now < limit
        → Locked now s
        → Locked now (confirm_idempotency redis link now tenant note_id fingerprint json lifetime s)
    unfolding confirm_idempotency
    confirm-Locked answered now json lifetime s b l (v, at, o, e) =
        rw (set_xx_lem now key json lifetime s, e) (rewritten now lifetime json s b l)
    confirm-Locked reply_lost now json lifetime s b l (v, at, o, e) =
        rw (set_xx_lem now key json lifetime s, e) (rewritten now lifetime json s b l)
    confirm-Locked refused now json lifetime s b l lock = lock

    take_over-Locked :
        (link : Link) (now : ℕ) (expected : String) (s : Store)
        → limit ≤ now + ttl
        → now < limit
        → Locked now s
        → Locked now
            (take_over_idempotency redis link now tenant note_id fingerprint expected ttl s).1
    unfolding take_over_idempotency
    take_over-Locked refused now expected s b l lock = lock
    take_over-Locked answered now expected s b l lock =
        elim (Bool-cases (holds_text (text_of (text_at now key s)) expected)) [
          | inl held ↦ rw held (rewritten now ttl reserved s b l)
          | inr other ↦ rw other lock
        ]
    take_over-Locked reply_lost now expected s b l lock =
        elim (Bool-cases (holds_text (text_of (text_at now key s)) expected)) [
          | inl held ↦ rw held (rewritten now ttl reserved s b l)
          | inr other ↦ rw other lock
        ]

    made_anew :
        (link : Link) (c : Command) (now : ℕ) (s : Store)
        → limit ≤ now + ttl
        → now < limit
        → ((made ttl now link c s).0 ≡ 0)
          ⊎ (((made ttl now link c s).0 ≤ 1) × Locked now (made ttl now link c s).1)
    made_anew link reserves now s b l = reserve_cases link now s b l
    made_anew link releases now s b l = inl refl
    made_anew link (confirms json lifetime) now s b l = inl refl
    made_anew link (takes_over expected) now s b l = inl refl

    made_kept :
        (link : Link) (c : Command) (now : ℕ) (s : Store)
        → limit ≤ now + ttl
        → now < limit
        → IsLasting ttl c
        → Locked now s
        → ((made ttl now link c s).0 ≡ 0)
          × (Locked now (made ttl now link c s).1 ⊎ (frees link c ≡ 1))
    unfolding release_idempotency
    made_kept link reserves now s b l k lock =
        let (none_here, kept) = reserve-Locked link now s lock in (none_here, inl (rw kept lock))
    made_kept answered releases now s b l k lock = (refl, inr refl)
    made_kept reply_lost releases now s b l k lock = (refl, inr refl)
    made_kept refused releases now s b l k lock = (refl, inl lock)
    made_kept link (confirms json lifetime) now s b l k lock =
        (refl, inl (confirm-Locked link now json lifetime s (omega arith) l lock))
    made_kept link (takes_over expected) now s b l k lock =
        (refl, inl (take_over-Locked link now expected s b l lock))

    -- With the key locked, as many as are freed; else one more.
    claims_both :
        (vs : List Visit) (start now : ℕ) (s : Store)
        → limit ≤ start + ttl
        → start ≤ now
        → InFlight ttl now limit vs
        → (claims ttl vs s ≤ freed vs + 1) × (Locked now s → claims ttl vs s ≤ freed vs)
    claims_both [] start now s b h w = (omega arith, λ lock. omega arith)
    claims_both (visit at link c ∷ rest) start now s b h w =
        let s' : Store = (made ttl at link c s).1 in
        let later = claims_both rest start at s' b (omega arith) w.3 in
        (
          elim (made_anew link c at s (omega arith) w.1) [
            | inl zero_here ↦ let any = later.0 in omega (arith, zero_here, any)
            | inr (one_here, lock) ↦ let locked = later.1 lock in omega (arith, one_here, locked)
          ],
          λ lock.
              let (zero_here, after) =
                made_kept link c at s (omega arith) w.1 w.2 (Locked-later now at s w.0 w.1 lock) in
              elim after [
                | inl still ↦ let locked = later.1 still in omega (arith, zero_here, locked)
                | inr out ↦ let any = later.0 in omega (arith, zero_here, out, any)
              ],
        )

-- Whatever calls reach one request's key within one in-flight lifetime, deliveries that reserve it,
-- confirmations for no shorter than that, take-overs and releases, in any order, from any store and
-- however each goes, the reservations that are won are at most one more than the releases that reach
-- the store. A take-over of a value that no longer validates is not counted as a reservation.
pub claims-exclusive :
    (redis : Redis) (tenant : String) (note_id : ℕ) (fingerprint : String) (ttl start : ℕ)
    (visits : List Visit) (s : redis.Store)
    → InFlight ttl start (start + ttl) visits
    → claims redis tenant note_id fingerprint ttl visits s ≤ freed visits + 1
claims-exclusive redis tenant note_id fingerprint ttl start visits s w =
    (claims_both redis tenant note_id fingerprint ttl (start + ttl) visits start start s
      (omega arith) (omega arith) w).0
