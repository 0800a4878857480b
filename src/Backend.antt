-- ===== src/Backend.antt =====
-- The reads of the CRM and the note that is judged
-- (src/dodeal_ai/tools/leads.py, src/dodeal_ai/tools/errors.py, and `_fetch_note`, `_matching` and
-- `_backend_errors` of src/dodeal_ai/units/structured_intelligence/pipeline.py).
--
-- The transport, the tenant's key and pydantic's validation of a reply are parameters. Spans are
-- milliseconds. URLs and headers are left out.
pub mod Retries
pub mod Fetched
mod Examples
use do_deal_ai.Prelude.{
  ℕ, Bool, true, false, not, ◌&&◌, ◌||◌, Option, none, some, List, [], ◌∷◌, String, ltb, leb, ◌==◌,
  if◌then◌else◌, Fallible, err, ok,
}
use do_deal_ai.Errors.{
  DodealError, lead_not_found, note_not_found, backend_unavailable, backend_rejected,
}
use do_deal_ai.Resilience.{Attempt, Policy, call_with_watchdog, gather_first_wins}

-- What an attempt can fail with: a status outside 2xx with its Retry-After, a connect error or a
-- timeout, or anything else.
pub data Cause : Type 0 where
  backend_status : ℕ → Option ℕ → Cause
  transient_failure other_failure : Cause

pub data Label : Type 0 where
  get_leads get_lead get_lead_notes : Label

-- What a read of the client raises.
pub data ReadError : Type 0 where
  not_found rejected unauthorized forbidden envelope_invalid : Label → ReadError
  key_missing external_call : ReadError

-- `RETRY_AFTER_CAP_SECONDS`.
abbrev pub retry_after_cap : ℕ
retry_after_cap = 2000

-- The delay of a status: the jitter has been drawn.
abbrev pub status_delay : ℕ → ℕ → Option ℕ → Option ℕ
status_delay jitter status none =
    if status == 429 then some jitter else if leb 500 status then some jitter else none
status_delay jitter status (some wait) =
    if status == 429
    then if leb wait retry_after_cap then some wait else none
    else if leb 500 status
    then some jitter
    else none

unfoldable pub backend_retry_delay : ℕ → Cause → Option ℕ
backend_retry_delay jitter (backend_status status retry_after) =
    status_delay jitter status retry_after
backend_retry_delay jitter transient_failure = some jitter
backend_retry_delay jitter other_failure = none

-- `_typed_failure`.
unfoldable pub typed_failure : Label → Cause → Option ReadError
typed_failure label (backend_status status retry_after) =
    if status == 429 || not (leb 400 status && ltb status 500)
    then none
    else if status == 404
    then some (not_found label)
    else if not (status == 401 || status == 403)
    then some (rejected label)
    else if status == 401
    then some (unauthorized label)
    else some (forbidden label)
typed_failure label transient_failure = none
typed_failure label other_failure = none

abbrev pub or_external : Option ReadError → ReadError
or_external none = external_call
or_external (some e) = e

-- The settings of a call, the deadline and the jitter.
pub record ReadPolicy : Type 0 where
  pub timeout : ℕ
  pub retry : Bool
  pub deadline : Option ℕ
  pub jitter : ℕ

abbrev pub policy_of : ReadPolicy → Policy Cause
policy_of p = record {
  timeout = p.timeout;
  retry = p.retry;
  retry_delay = some (backend_retry_delay p.jitter);
  deadline = p.deadline;
  timed_out = transient_failure;
}

module _ {Raw : Type 0} where
  -- The result of the watchdog, its error typed.
  abbrev pub typed : Label → Fallible Cause Raw → Fallible ReadError Raw
  typed label (ok raw) = ok raw
  typed label (err cause) = err (or_external (typed_failure label cause))

  -- `LeadsClient._get`: the key is looked up before anything is sent.
  unfoldable pub get :
      Label → Bool → ReadPolicy → (ℕ → Attempt Cause Raw) → ℕ → Fallible ReadError Raw
  unfolding typed_failure
  get label has_key policy transport now =
      if has_key
      then typed label (call_with_watchdog (policy_of policy) transport now).result
      else err key_missing

  -- `_envelope`: `shape` is pydantic's validation of the reply.
  unfoldable pub envelope :
      {A : Type 0} → Label → (Raw → Option A) → Fallible ReadError Raw → Fallible ReadError A
  envelope label shape (err e) = err e
  envelope label shape (ok raw) = elim (shape raw) [
    | none ↦ err (envelope_invalid label)
    | some a ↦ ok a
  ]

-- `_valid_rows`: the rows that validate, in order.
unfoldable pub valid_rows : {Row A : Type 0} → (Row → Option A) → List Row → List A
valid_rows validate [] = []
valid_rows validate (row ∷ rows) =
    let rest = valid_rows validate rows in elim (validate row) [ none ↦ rest | some a ↦ a ∷ rest ]

pub record LeadNote : Type 0 where
  pub id : ℕ
  pub text : String
  pub author_id : ℕ

-- `_matching`.
unfoldable pub matching : List LeadNote → ℕ → Option LeadNote
matching [] note_id = none
matching (note ∷ notes) note_id = if note.id == note_id then some note else matching notes note_id

-- `_backend_errors`.
unfoldable pub backend_errors : ReadError → DodealError
backend_errors (not_found get_lead) = lead_not_found
backend_errors (not_found _) = backend_rejected
backend_errors (rejected label) = backend_rejected
backend_errors (unauthorized label) = backend_unavailable
backend_errors (forbidden label) = backend_unavailable
backend_errors (envelope_invalid label) = backend_unavailable
backend_errors key_missing = backend_unavailable
backend_errors external_call = backend_unavailable

abbrev pub as_dodeal : {A : Type 0} → Fallible ReadError A → Fallible DodealError A
as_dodeal (err e) = err (backend_errors e)
as_dodeal (ok a) = ok a

abbrev pub or_not_found : {L : Type 0} → L → Option LeadNote → Fallible DodealError (L × LeadNote)
or_not_found lead none = err note_not_found
or_not_found lead (some note) = ok (lead, note)

abbrev pub second_page :
    {L : Type 0}
    → ℕ
    → L
    → Fallible DodealError (List LeadNote)
    → Fallible DodealError (L × LeadNote)
second_page note_id lead (err e) = err e
second_page note_id lead (ok notes) = or_not_found lead (matching notes note_id)

-- From the first page on: read again where the note is not on it and time is left.
abbrev pub from_page :
    {L : Type 0}
    → ℕ
    → Bool
    → Fallible ReadError (List LeadNote)
    → L
    → Option LeadNote
    → Fallible DodealError (L × LeadNote)
from_page note_id time_left reread lead (some note) = ok (lead, note)
from_page note_id time_left reread lead none =
    if time_left then second_page note_id lead (as_dodeal reread) else err note_not_found

abbrev pub after_reads :
    {L : Type 0}
    → ℕ
    → Bool
    → Fallible ReadError (List LeadNote)
    → Fallible DodealError (L × List LeadNote)
    → Fallible DodealError (L × LeadNote)
after_reads note_id time_left reread (err e) = err e
after_reads note_id time_left reread (ok (lead, notes)) =
    from_page note_id time_left reread lead (matching notes note_id)

-- `_fetch_note`: the two reads that start together, whether a second of the deadline is left after
-- them, and the read that is then made again.
unfoldable pub fetch_note :
    {L : Type 0}
    → ℕ
    → Fallible ReadError L
    → Fallible ReadError (List LeadNote)
    → Bool
    → Fallible ReadError (List LeadNote)
    → Fallible DodealError (L × LeadNote)
unfolding matching backend_errors
fetch_note note_id lead notes time_left reread =
    after_reads note_id time_left reread (as_dodeal (gather_first_wins lead notes))
