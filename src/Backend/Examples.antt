-- ===== src/Backend/Examples.antt =====
-- A lead that is missing and a note found on the second reading (src/dodeal_ai/tools/leads.py).
use do_deal_ai.Prelude.{ℕ, ◌≡◌, refl, true, none, some, [], ◌∷◌, arith, err, ok}
use do_deal_ai.Resilience.{Attempt, call_with_watchdog, wait_for, gather_first_wins}
use do_deal_ai.Backend.{
  Cause, backend_status, get_lead, ReadPolicy, policy_of, LeadNote, fetch_note, get, not_found,
}
use do_deal_ai.Backend.Retries.{get-refused}
use do_deal_ai.Backend.Fetched.{Fetched, fetch_note-Fetched}

abbrev reads : ReadPolicy
reads = record { timeout = 5000; retry = true; deadline = some 9000; jitter = 150 }

abbrev missing_lead : ℕ → Attempt Cause ℕ
missing_lead n = record {
  ends_with = err (backend_status 404 none);
  takes = 30;
  when_cancelled = none;
  winds_down = 2;
}

first_ends : wait_for (policy_of reads) (missing_lead 1) 100 ≡ (err (backend_status 404 none), 130)
unfolding wait_for
first_ends = refl

get-refused_example :
    ((call_with_watchdog (policy_of reads) missing_lead 100).starts ≡ 100 ∷ [])
    × (get get_lead true reads missing_lead 100 ≡ err (not_found get_lead))
get-refused_example =
    get-refused reads missing_lead 100 404 none 130 first_ends (omega arith) (omega arith)
      (omega arith) get_lead

abbrev late_note : LeadNote
late_note = record { id = 7; text = "viewed the flat"; author_id = 12 }

fetch_note-Fetched_example :
    Fetched {L = ℕ} 7
      (ok 3)
      (ok [])
      true
      (ok (late_note ∷ []))
      (fetch_note {L = ℕ} 7 (ok 3) (ok []) true (ok (late_note ∷ [])))
fetch_note-Fetched_example = fetch_note-Fetched {L = ℕ} 7 (ok 3) (ok []) true (ok (late_note ∷ []))

found_late : fetch_note {L = ℕ} 7 (ok 3) (ok []) true (ok (late_note ∷ [])) ≡ ok (3, late_note)
unfolding fetch_note gather_first_wins
found_late = refl
