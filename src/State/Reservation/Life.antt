-- ===== src/State/Reservation/Life.antt =====
-- What follows a reservation: the confirm, the replay, the release and the take-over
-- (src/dodeal_ai/units/structured_intelligence/state.py).
use do_deal_ai.Prelude.{
  ℕ, ◌+◌, ◌≤◌, ◌<◌, ◌≡◌, ◌≢◌, refl, true, false, Option, none, some, String, arith, ◌⊎◌, inl, inr,
  ltb, Bool-cases,
}
use do_deal_ai.Redis.{Redis, TextKey, Entry}
use do_deal_ai.Redis.Links.{Link, answered, reply_lost, refused}
use do_deal_ai.State.{
  reserved, reserve_idempotency, release_idempotency, confirm_idempotency, read_confirmed_judgement,
  take_over_idempotency, text_of, holds_text,
}
use do_deal_ai.State.Reservation.{same_key, different_texts, key, written}

module _ (redis : Redis) (tenant : String) (note_id : ℕ) (fingerprint : String) where
  open redis use {
    Store, text_at, set_nx, set_xx, set_ex, delete, text_at_later, text_at-set_ex, set_nx_lem,
    set_xx_lem, text_at-delete,
  }

  abbrev the_key : TextKey
  the_key = key redis tenant note_id fingerprint

  confirm-none :
      (link : Link) (now : ℕ) (json : String) (ttl : ℕ) (s : Store)
      → text_at now the_key s ≡ none
      → confirm_idempotency redis link now tenant note_id fingerprint json ttl s ≡ s
  unfolding confirm_idempotency
  confirm-none answered now json ttl s e = rw (set_xx_lem now the_key json ttl s, e)
  confirm-none reply_lost now json ttl s e = rw (set_xx_lem now the_key json ttl s, e)
  confirm-none refused now json ttl s e = refl

  pub confirm-some :
      (now : ℕ) (json : String) (ttl : ℕ) (s : Store) (x : Entry String)
      → text_at now the_key s ≡ some x
      → confirm_idempotency redis answered now tenant note_id fingerprint json ttl s
        ≡ set_ex now the_key json ttl s
  unfolding confirm_idempotency
  confirm-some now json ttl s x e = rw (set_xx_lem now the_key json ttl s, e)

  pub reserved_store :
      (now ttl : ℕ) (s : Store)
      → text_at now the_key s ≡ none
      → (reserve_idempotency redis answered now tenant note_id fingerprint ttl s).1
        ≡ set_ex now the_key reserved ttl s
  unfolding reserve_idempotency
  reserved_store now ttl s e = rw (set_nx_lem now the_key reserved ttl s, e)

  pub read_written :
      (later : ℕ) (v : String) (expires : Option ℕ) (s : Store)
      → v ≢ reserved
      → text_at later the_key s ≡ some (record { value = v; expires = expires })
      → read_confirmed_judgement redis answered later tenant note_id fingerprint s ≡ some (some v)
  unfolding read_confirmed_judgement
  read_written later v expires s h e = rw (e, different_texts v reserved h) refl

  pub duplicate :
      (later ttl : ℕ) (s : Store) (x : Entry String)
      → text_at later the_key s ≡ some x
      → (reserve_idempotency redis answered later tenant note_id fingerprint ttl s).0 ≡ some false
  unfolding reserve_idempotency
  duplicate later ttl s x e = rw e refl

  -- The round trip of a judgement: reserved where the key was free, confirmed before the reservation
  -- ends, and asked for before the confirmation does, it is read back as it was written, and a
  -- duplicate request does not claim the key.
  read-confirm-reserve :
      (t0 t1 t2 inflight ttl : ℕ) (json : String) (s : Store)
      → text_at t0 the_key s ≡ none
      → t0 ≤ t1
      → t1 < t0 + inflight
      → t1 ≤ t2
      → t2 < t1 + ttl
      → json ≢ reserved
      → let s1 = (reserve_idempotency redis answered t0 tenant note_id fingerprint inflight s).1 in
        let s2 = confirm_idempotency redis answered t1 tenant note_id fingerprint json ttl s1 in
        (read_confirmed_judgement redis answered t2 tenant note_id fingerprint s2
          ≡ some (some json))
        × ((reserve_idempotency redis answered t2 tenant note_id fingerprint inflight s2).0
            ≡ some false)
  read-confirm-reserve t0 t1 t2 inflight ttl json s free a b c d h =
      let s1 : Store = set_ex t0 the_key reserved inflight s in
      let kept = written redis tenant note_id fingerprint t0 t1 reserved inflight s a b in
      let stored = written redis tenant note_id fingerprint t1 t2 json ttl s1 c d in
      rw
        (
          reserved_store t0 inflight s free,
          confirm-some t1 json ttl s1 (record { value = reserved; expires = some (t0 + inflight) })
              kept,
        )
        (
          read_written t2 json (some (t1 + ttl)) (set_ex t1 the_key json ttl s1) h stored,
          duplicate t2 inflight (set_ex t1 the_key json ttl s1)
              (record { value = json; expires = some (t1 + ttl) }) stored,
        )

  -- A confirm never brings back a key that has gone: where there is none it changes nothing, however
  -- its call goes; and so nothing is replayed and the next request claims the key.
  confirm-expired :
      (link : Link) (now ttl inflight : ℕ) (json : String) (s : Store)
      → text_at now the_key s ≡ none
      → let s' = confirm_idempotency redis link now tenant note_id fingerprint json ttl s in
        (s' ≡ s)
        × (read_confirmed_judgement redis answered now tenant note_id fingerprint s' ≡ some none)
        × ((reserve_idempotency redis answered now tenant note_id fingerprint inflight s').0
            ≡ some true)
  unfolding read_confirmed_judgement reserve_idempotency
  confirm-expired link now ttl inflight json s e =
      rw (confirm-none link now json ttl s e) (refl, rw e refl, rw e refl)

  pub released :
      (now : ℕ) (s : Store)
      → text_at now the_key (release_idempotency redis answered tenant note_id fingerprint s) ≡ none
  unfolding release_idempotency
  released now s = rw (text_at-delete now the_key the_key s, same_key tenant note_id fingerprint)

  pub claimed :
      (now ttl : ℕ) (s : Store)
      → text_at now the_key s ≡ none
      → (reserve_idempotency redis answered now tenant note_id fingerprint ttl s).0 ≡ some true
  unfolding reserve_idempotency
  claimed now ttl s e = rw e refl

  -- After a release a retry at once claims the key, whatever it held, and a replay finds nothing.
  reserve-release :
      (now ttl : ℕ) (s : Store)
      → let s' = release_idempotency redis answered tenant note_id fingerprint s in
        (read_confirmed_judgement redis answered now tenant note_id fingerprint s' ≡ some none)
        × ((reserve_idempotency redis answered now tenant note_id fingerprint ttl s').0 ≡ some true)
  unfolding read_confirmed_judgement
  reserve-release now ttl s = (
    rw (released now s) refl,
    claimed now ttl (release_idempotency redis answered tenant note_id fingerprint s)
        (released now s),
  )

  stale :
      (later ttl : ℕ) (expected : String) (s : Store)
      → (text_at later the_key s ≡ none)
        ⊎ ((x : Option ℕ) × (text_at later the_key s
              ≡ some (record { value = reserved; expires = x })))
      → expected ≢ reserved
      → (take_over_idempotency redis answered later tenant note_id fingerprint expected ttl s).0
        ≡ some false
  unfolding take_over_idempotency
  stale later ttl expected s (inl e) h = rw e refl
  stale later ttl expected s (inr (x, e)) h =
      rw (e, different_texts reserved expected (λ p. h (cc p))) refl

  taken_store :
      (now later ttl : ℕ) (expected : String) (s : Store)
      → now ≤ later
      → (take_over_idempotency redis answered now tenant note_id fingerprint expected ttl s).0
        ≡ some true
      → let s' =
          (take_over_idempotency redis answered now tenant note_id fingerprint expected ttl s).1 in
        (text_at later the_key s' ≡ none)
        ⊎ ((x : Option ℕ) × (text_at later the_key s'
              ≡ some (record { value = reserved; expires = x })))
  unfolding take_over_idempotency
  taken_store now later ttl expected s h won =
      elim (Bool-cases (holds_text (text_of (text_at now the_key s)) expected)) [
        | inr e ↦ absurd (ground (arith, e, won))
        | inl e ↦ elim (Bool-cases (ltb later (now + ttl))) [
          | inl l ↦ rw e (
              inr (
                some (now + ttl),
                written redis tenant note_id fingerprint now later reserved ttl s h (ground arith),
              ))
          | inr g ↦ rw e (inl (gone g))
        ]
      ]
    where
      gone :
          ltb later (now + ttl) ≡ false
          → text_at later the_key (set_ex now the_key reserved ttl s) ≡ none
      gone g =
          let before = text_at-set_ex now the_key the_key reserved ttl s in
          rw
            (
              text_at_later now later the_key (set_ex now the_key reserved ttl s) h,
              before,
              same_key tenant note_id fingerprint,
            )
            (ground (arith, g))

  -- Of two requests that met the same invalid judgement only one takes it over: once one has, the
  -- other, at the same time or later, does not.
  pub take_over-once :
      (now later ttl : ℕ) (expected : String) (s : Store)
      → now ≤ later
      → expected ≢ reserved
      → (take_over_idempotency redis answered now tenant note_id fingerprint expected ttl s).0
        ≡ some true
      → (take_over_idempotency redis answered later tenant note_id fingerprint expected ttl
          (take_over_idempotency redis answered now tenant note_id fingerprint expected ttl s).1).0
        ≡ some false
  take_over-once now later ttl expected s h differs won =
      stale later ttl expected
        (take_over_idempotency redis answered now tenant note_id fingerprint expected ttl s).1
        (taken_store now later ttl expected s h won) differs
