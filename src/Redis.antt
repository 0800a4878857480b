-- ===== src/Redis.antt =====
-- The two Redis connections as the source uses them (src/dodeal_ai/core/redis.py hands out their
-- clients; the server and its client library are not part of the repository).
--
-- The server is a parameter: a store with the commands that the source sends, and as hypotheses what
-- Redis documents of them. Keys that hold a number and keys that hold a text are two types, one
-- constructor for each f-string of the source; that two keys of different parts are different rests on
-- a tenant label having no colon, which core/tenancy.py ensures.
-- A script runs as a whole, so its commands share one instant. Instants are seconds.
pub mod Links
pub mod Table
use do_deal_ai.Prelude.{
  ℕ, ◌+◌, ◌≤◌, ◌≡◌, Bool, true, false, ◌&&◌, Option, none, some, String, ltb, ◌==◌, if◌then◌else◌,
  is_some,
}
use text.Mathlib.Text.{◌==◌ as str_eq}

-- `cost:tenant:{t}`, `cost:user:{t}:{s}`, `tokens:...`, `attempt:{t}:{n}`, `ratelimit:{t}:{s}`,
-- `ratelimit_day:{t}:{s}`.
pub data CounterKey : Type 0 where
  cost_tenant tokens_tenant : String → CounterKey
  cost_user tokens_user rate_limit rate_limit_day : String → String → CounterKey
  attempt : String → ℕ → CounterKey

-- `idem:{t}:judge_note:{n}:{f}` and `attempt_fp:{t}:{n}`.
pub data TextKey : Type 0 where
  idempotency : String → ℕ → String → TextKey
  attempt_fingerprint : String → ℕ → TextKey

abbrev pub same_counter : CounterKey → CounterKey → Bool
same_counter (cost_tenant t) (cost_tenant t') = str_eq t t'
same_counter (tokens_tenant t) (tokens_tenant t') = str_eq t t'
same_counter (cost_user t s) (cost_user t' s') = str_eq t t' && str_eq s s'
same_counter (tokens_user t s) (tokens_user t' s') = str_eq t t' && str_eq s s'
same_counter (rate_limit t s) (rate_limit t' s') = str_eq t t' && str_eq s s'
same_counter (rate_limit_day t s) (rate_limit_day t' s') = str_eq t t' && str_eq s s'
same_counter (attempt t n) (attempt t' n') = str_eq t t' && n == n'
same_counter _ _ = false

abbrev pub same_text : TextKey → TextKey → Bool
same_text (idempotency t n f) (idempotency t' n' f') = str_eq t t' && n == n' && str_eq f f'
same_text (attempt_fingerprint t n) (attempt_fingerprint t' n') = str_eq t t' && n == n'
same_text _ _ = false

-- What a key holds, and when it goes; `none` is a key with no expiry.
pub record Entry (V : Type 0) : Type 0 where
  pub value : V
  pub expires : Option ℕ

-- A key whose time has come is gone.
abbrev pub alive : {V : Type 0} → ℕ → Option ℕ → V → Option (Entry V)
alive now none v = some (record { value = v; expires = none })
alive now (some at) v = if ltb now at then some (record { value = v; expires = some at }) else none

-- INCRBY on what is there: a missing key counts from 0 and gets no expiry.
abbrev pub raised : ℕ → ℕ → Option (Entry ℕ) → Option (Entry ℕ)
raised now n none = alive now none n
raised now n (some e) = alive now e.expires (e.value + n)

-- EXPIRE on what is there: nothing for a missing key.
abbrev pub expiring : ℕ → ℕ → Option (Entry ℕ) → Option (Entry ℕ)
expiring now at none = none
expiring now at (some e) = alive now (some at) e.value

pub record Redis : Type 1 where
  pub Store : Type 0
  -- What GET and TTL see at an instant.
  pub count_at : ℕ → CounterKey → Store → Option (Entry ℕ)
  pub text_at : ℕ → TextKey → Store → Option (Entry String)
  -- INCRBY, EXPIRE, SET NX EX, SET XX EX, SET EX, DEL.
  pub incr_by : ℕ → CounterKey → ℕ → Store → Store
  pub expire : ℕ → CounterKey → ℕ → Store → Store
  pub set_nx : ℕ → TextKey → String → ℕ → Store → Store
  pub set_xx : ℕ → TextKey → String → ℕ → Store → Store
  pub set_ex : ℕ → TextKey → String → ℕ → Store → Store
  pub delete : TextKey → Store → Store
  -- An answer about a later instant is the answer about an earlier one, unless the key has gone.
  pub count_at_later :
      (now later : ℕ) (k : CounterKey) (s : Store)
      → now ≤ later
      → count_at later k s
        ≡ elim (count_at now k s) [ none ↦ none | some e ↦ alive later e.expires e.value ]
  pub text_at_later :
      (now later : ℕ) (k : TextKey) (s : Store)
      → now ≤ later
      → text_at later k s
        ≡ elim (text_at now k s) [ none ↦ none | some e ↦ alive later e.expires e.value ]
  pub count_at-incr_by :
      (now : ℕ) (j k : CounterKey) (n : ℕ) (s : Store)
      → count_at now j (incr_by now k n s)
        ≡ (if same_counter j k then raised now n (count_at now k s) else count_at now j s)
  pub count_at-expire :
      (now : ℕ) (j k : CounterKey) (ttl : ℕ) (s : Store)
      → count_at now j (expire now k ttl s) ≡ (
          if same_counter j k
          then expiring now (now + ttl) (count_at now k s)
          else count_at now j s)
  -- The two kinds of keys do not meet.
  pub text_at-incr_by :
      (now : ℕ) (j : TextKey) (k : CounterKey) (n : ℕ) (s : Store)
      → text_at now j (incr_by now k n s) ≡ text_at now j s
  pub text_at-expire :
      (now : ℕ) (j : TextKey) (k : CounterKey) (ttl : ℕ) (s : Store)
      → text_at now j (expire now k ttl s) ≡ text_at now j s
  pub text_at-set_ex :
      (now : ℕ) (j k : TextKey) (v : String) (ttl : ℕ) (s : Store)
      → text_at now j (set_ex now k v ttl s)
        ≡ (if same_text j k then alive now (some (now + ttl)) v else text_at now j s)
  pub set_nx_lem :
      (now : ℕ) (k : TextKey) (v : String) (ttl : ℕ) (s : Store)
      → set_nx now k v ttl s ≡ (if is_some (text_at now k s) then s else set_ex now k v ttl s)
  pub set_xx_lem :
      (now : ℕ) (k : TextKey) (v : String) (ttl : ℕ) (s : Store)
      → set_xx now k v ttl s ≡ (if is_some (text_at now k s) then set_ex now k v ttl s else s)
  pub text_at-delete :
      (now : ℕ) (j k : TextKey) (s : Store)
      → text_at now j (delete k s) ≡ (if same_text j k then none else text_at now j s)
