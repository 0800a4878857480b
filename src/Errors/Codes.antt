-- ===== src/Errors/Codes.antt =====
-- A reason code tells the failure (src/dodeal_ai/core/errors.py).
use do_deal_ai.Prelude.{ℕ, ◌≡◌, ◌↔◌, refl, sym, ap, ◌∙◌, Option, none, some, String, if◌then◌else◌}
use text.Mathlib.Text.{◌==◌ as str_eq}
use do_deal_ai.Errors.{
  DodealError, invalid_request, lead_not_found, note_not_found, duplicate_request,
  idempotency_unavailable, backend_unavailable, backend_rejected, model_unavailable,
  malformed_output, token_budget_exceeded, judgement_deadline_exceeded, subject_not_found,
  brief_store_unavailable, load_shed, payload_too_large, reason_code, Escaped, dodeal,
  validation_failed, http_exception, unexpected, handle,
}

-- Which failure a code names.
read_code : String → Option DodealError
read_code c =
    if str_eq c "invalid_request"
    then some invalid_request
    else if str_eq c "lead_not_found"
    then some lead_not_found
    else if str_eq c "note_not_found"
    then some note_not_found
    else if str_eq c "duplicate_request"
    then some duplicate_request
    else if str_eq c "idempotency_unavailable"
    then some idempotency_unavailable
    else if str_eq c "backend_unavailable"
    then some backend_unavailable
    else if str_eq c "backend_rejected"
    then some backend_rejected
    else if str_eq c "model_unavailable"
    then some model_unavailable
    else if str_eq c "malformed_output"
    then some malformed_output
    else if str_eq c "token_budget_exceeded"
    then some token_budget_exceeded
    else if str_eq c "judgement_deadline_exceeded"
    then some judgement_deadline_exceeded
    else if str_eq c "subject_not_found"
    then some subject_not_found
    else if str_eq c "brief_store_unavailable"
    then some brief_store_unavailable
    else if str_eq c "load_shed"
    then some load_shed
    else if str_eq c "payload_too_large"
    then some payload_too_large
    else none

read_code-reason_code : (e : DodealError) → read_code (reason_code e) ≡ some e
unfolding read_code reason_code
read_code-reason_code invalid_request = refl
read_code-reason_code lead_not_found = refl
read_code-reason_code note_not_found = refl
read_code-reason_code duplicate_request = refl
read_code-reason_code idempotency_unavailable = refl
read_code-reason_code backend_unavailable = refl
read_code-reason_code backend_rejected = refl
read_code-reason_code model_unavailable = refl
read_code-reason_code malformed_output = refl
read_code-reason_code token_budget_exceeded = refl
read_code-reason_code judgement_deadline_exceeded = refl
read_code-reason_code subject_not_found = refl
read_code-reason_code brief_store_unavailable = refl
read_code-reason_code load_shed = refl
read_code-reason_code payload_too_large = refl

same_code : (e e' : DodealError) → reason_code e ≡ reason_code e' → e ≡ e'
same_code e e' h =
    let both : some e ≡ some e' =
      sym (read_code-reason_code e) ∙ ap read_code h ∙ read_code-reason_code e' in
    cc

-- The responses of two escaped exceptions with one reason are of the same failure, where a body that
-- cannot be validated counts as an invalid request.
abbrev pub failure_of : Escaped → Option DodealError
failure_of (dodeal e) = some e
failure_of validation_failed = some invalid_request
failure_of (http_exception status detail) = none
failure_of unexpected = none

code_of : Option DodealError → Option String
code_of none = none
code_of (some e) = some (reason_code e)

handle-reason :
    (phrase : ℕ → String) (a : Escaped) (request_id : String)
    → (handle phrase a request_id).reason ≡ code_of (failure_of a)
unfolding handle code_of
handle-reason phrase (dodeal e) r = refl
handle-reason phrase validation_failed r = refl
handle-reason phrase (http_exception status detail) r = refl
handle-reason phrase unexpected r = refl

code_of-eq : (a b : Option DodealError) → code_of a ≡ code_of b → a ≡ b
unfolding code_of
code_of-eq none none h = refl
code_of-eq none (some e) h = absurd (cc h)
code_of-eq (some e) none h = absurd (cc h)
code_of-eq (some e) (some e') h = ap some (same_code e e' (cc h))

-- The caller can tell failures apart by the reason in the response: two exceptions, whatever they are
-- and whoever rendered them, have one reason exactly where they are the same failure, a body that
-- cannot be validated counting as an invalid request and anything outside the enumerated failures as
-- none.
pub handle-reason_iff :
    (phrase : ℕ → String) (a b : Escaped) (request_a request_b : String)
    → ((handle phrase a request_a).reason ≡ (handle phrase b request_b).reason)
      ↔ (failure_of a ≡ failure_of b)
handle-reason_iff phrase a b ra rb =
    let left = handle-reason phrase a ra in
    let right = handle-reason phrase b rb in
    (
      λ h. code_of-eq (failure_of a) (failure_of b) (sym left ∙ h ∙ right),
      λ h. left ∙ ap code_of h ∙ sym right,
    )
