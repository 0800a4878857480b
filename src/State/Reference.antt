-- ===== src/State/Reference.antt =====
-- The text that a note's first question was about
-- (src/dodeal_ai/units/structured_intelligence/state.py, `write_attempt_fingerprint` and
-- `read_attempt_fingerprint`).
use do_deal_ai.Prelude.{
  ℕ, ◌+◌, ◌≤◌, ◌<◌, ◌≡◌, refl, true, none, some, String, arith, ltb, ==_refl, lt→ltb,
}
use text.Mathlib.TextPositions.{eq_refl}
use do_deal_ai.Redis.{Redis, TextKey, attempt_fingerprint, same_text, Entry}
use do_deal_ai.Redis.Links.{Link, answered, reply_lost, refused}
use do_deal_ai.State.{write_attempt_fingerprint, read_attempt_fingerprint}

module _ (redis : Redis) (tenant : String) (note_id : ℕ) where
  open redis use {Store, text_at, set_nx, set_ex, text_at_later, text_at-set_ex, set_nx_lem}

  abbrev reference_key : TextKey
  reference_key = attempt_fingerprint tenant note_id

  same_reference : same_text reference_key reference_key ≡ true
  same_reference = rw (eq_refl tenant, ==_refl note_id)

  first_stored :
      (now later : ℕ) (v : String) (ttl : ℕ) (s : Store)
      → now ≤ later
      → later < now + ttl
      → text_at later reference_key (set_ex now reference_key v ttl s)
        ≡ some (record { value = v; expires = some (now + ttl) })
  first_stored now later v ttl s h l =
      let soon : ltb now (now + ttl) ≡ true = lt→ltb now (now + ttl) (omega arith) in
      let still : ltb later (now + ttl) ≡ true = lt→ltb later (now + ttl) l in
      rw (
        text_at_later now later reference_key (set_ex now reference_key v ttl s) h,
        text_at-set_ex now reference_key reference_key v ttl s,
        same_reference,
        soon,
        still,
      )

  first_write :
      (now ttl : ℕ) (v : String) (s : Store)
      → text_at now reference_key s ≡ none
      → write_attempt_fingerprint redis answered now tenant note_id v ttl s
        ≡ set_ex now reference_key v ttl s
  unfolding write_attempt_fingerprint
  first_write now ttl v s e = rw (set_nx_lem now reference_key v ttl s, e)

  second_write :
      (link : Link) (now ttl : ℕ) (v : String) (s : Store) (x : Entry String)
      → text_at now reference_key s ≡ some x
      → write_attempt_fingerprint redis link now tenant note_id v ttl s ≡ s
  unfolding write_attempt_fingerprint
  second_write answered now ttl v s x e = rw (set_nx_lem now reference_key v ttl s, e)
  second_write reply_lost now ttl v s x e = rw (set_nx_lem now reference_key v ttl s, e)
  second_write refused now ttl v s x e = refl

  read_back :
      (now : ℕ) (s : Store) (x : Entry String)
      → text_at now reference_key s ≡ some x
      → read_attempt_fingerprint redis answered now tenant note_id s ≡ some x.value
  unfolding read_attempt_fingerprint
  read_back now s x e = rw e refl

  -- The first text that a note was asked about stays: written where no reference was, it is read back
  -- for as long as it lives, whatever a later question writes in that time and however that call goes.
  read-write-write :
      (t0 t1 t2 ttl ttl' : ℕ) (first second : String) (link : Link) (s : Store)
      → text_at t0 reference_key s ≡ none
      → t0 ≤ t1
      → t1 ≤ t2
      → t2 < t0 + ttl
      → read_attempt_fingerprint redis answered t2 tenant note_id (
          write_attempt_fingerprint redis link t1 tenant note_id second ttl'
            (write_attempt_fingerprint redis answered t0 tenant note_id first ttl s))
        ≡ some first
  read-write-write t0 t1 t2 ttl ttl' first second link s free a b c =
      let s1 : Store = set_ex t0 reference_key first ttl s in
      let entry : Entry String = record { value = first; expires = some (t0 + ttl) } in
      rw
        (
          first_write t0 ttl first s free,
          second_write link t1 ttl' second s1 entry
              (first_stored t0 t1 first ttl s a (omega arith)),
        )
        (read_back t2 s1 entry (first_stored t0 t2 first ttl s (omega arith) c))
