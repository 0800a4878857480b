-- ===== src/Redis/Table.antt =====
-- A table in memory that has what is assumed of Redis, for concrete runs: it shows that the
-- assumptions can hold (src/dodeal_ai/core/redis.py).
use do_deal_ai.Prelude.{
  ℕ, ◌+◌, ◌≤◌, ◌≡◌, refl, Option, none, some, String, arith, if◌then◌else◌, is_some,
}
use do_deal_ai.Redis.{
  Redis, CounterKey, TextKey, same_counter, same_text, Entry, alive, raised, expiring,
}

pub record Memory : Type 0 where
  pub counters : CounterKey → Option (Entry ℕ)
  pub texts : TextKey → Option (Entry String)

abbrev pub empty : Memory
empty = record { counters = λ k. none; texts = λ k. none }

abbrev pub seen : {V : Type 0} → ℕ → Option (Entry V) → Option (Entry V)
seen now none = none
seen now (some e) = alive now e.expires e.value

abbrev pub write_counter : CounterKey → Option (Entry ℕ) → Memory → Memory
write_counter k e s = record s { counters = λ j. if same_counter j k then e else s.counters j }

abbrev pub write_text : TextKey → Option (Entry String) → Memory → Memory
write_text k e s = record s { texts = λ j. if same_text j k then e else s.texts j }

pub seen_later :
    {V : Type 0} (now later : ℕ) (e : Option (Entry V))
    → now ≤ later
    → seen later e ≡ elim (seen now e) [ none ↦ none | some x ↦ alive later x.expires x.value ]
seen_later now later e h = ground arith

pub counter_written :
    (now : ℕ) (j k : CounterKey) (n : ℕ) (s : Memory)
    → seen now ((write_counter k (raised now n (seen now (s.counters k))) s).counters j) ≡ (
        if same_counter j k
        then raised now n (seen now (s.counters k))
        else seen now (s.counters j))
counter_written now j k n s = ground arith

pub counter_expiring :
    (now : ℕ) (j k : CounterKey) (ttl : ℕ) (s : Memory)
    → seen now ((write_counter k (expiring now (now + ttl) (seen now (s.counters k))) s).counters j)
      ≡ (if same_counter j k
          then expiring now (now + ttl) (seen now (s.counters k))
          else seen now (s.counters j))
counter_expiring now j k ttl s = ground arith

pub text_written :
    (now : ℕ) (j k : TextKey) (e : Option (Entry String)) (s : Memory)
    → seen now ((write_text k e s).texts j)
      ≡ (if same_text j k then seen now e else seen now (s.texts j))
text_written now j k e s = ground arith

abbrev pub set_live : ℕ → TextKey → String → ℕ → Memory → Memory
set_live now k v ttl s = write_text k (alive now (some (now + ttl)) v) s

pub text_set :
    (now : ℕ) (j k : TextKey) (v : String) (ttl : ℕ) (s : Memory)
    → seen now ((set_live now k v ttl s).texts j)
      ≡ (if same_text j k then alive now (some (now + ttl)) v else seen now (s.texts j))
text_set now j k v ttl s = ground arith

abbrev pub table : Redis
table = record {
  Store = Memory;
  count_at = λ now k s. seen now (s.counters k);
  text_at = λ now k s. seen now (s.texts k);
  incr_by = λ now k n s. write_counter k (raised now n (seen now (s.counters k))) s;
  expire = λ now k ttl s. write_counter k (expiring now (now + ttl) (seen now (s.counters k))) s;
  set_nx = λ now k v ttl s. if is_some (seen now (s.texts k)) then s else set_live now k v ttl s;
  set_xx = λ now k v ttl s. if is_some (seen now (s.texts k)) then set_live now k v ttl s else s;
  set_ex = set_live;
  delete = λ k s. write_text k none s;
  count_at_later = λ now later k s h. seen_later now later (s.counters k) h;
  text_at_later = λ now later k s h. seen_later now later (s.texts k) h;
  count_at-incr_by = counter_written;
  count_at-expire = counter_expiring;
  text_at-incr_by = λ now j k n s. refl;
  text_at-expire = λ now j k ttl s. refl;
  text_at-set_ex = text_set;
  set_nx_lem = λ now k v ttl s. refl;
  set_xx_lem = λ now k v ttl s. refl;
  text_at-delete = λ now j k s. text_written now j k none s;
}
