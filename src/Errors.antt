-- ===== src/Errors.antt =====
-- The enumerated failures and the response each becomes (src/dodeal_ai/core/errors.py).
--
-- The handlers' log lines and the wiring into the framework are left out. A status phrase is Python's
-- `HTTPStatus(status).phrase`, an argument.
pub mod Codes
mod Examples
use do_deal_ai.Prelude.{ℕ, Option, none, some, String}

-- One constructor for each subclass.
pub data DodealError : Type 0 where
  invalid_request lead_not_found note_not_found duplicate_request : DodealError
  idempotency_unavailable backend_unavailable backend_rejected : DodealError
  model_unavailable malformed_output token_budget_exceeded : DodealError
  judgement_deadline_exceeded subject_not_found brief_store_unavailable : DodealError
  load_shed payload_too_large : DodealError

unfoldable pub reason_code : DodealError → String
reason_code invalid_request = "invalid_request"
reason_code lead_not_found = "lead_not_found"
reason_code note_not_found = "note_not_found"
reason_code duplicate_request = "duplicate_request"
reason_code idempotency_unavailable = "idempotency_unavailable"
reason_code backend_unavailable = "backend_unavailable"
reason_code backend_rejected = "backend_rejected"
reason_code model_unavailable = "model_unavailable"
reason_code malformed_output = "malformed_output"
reason_code token_budget_exceeded = "token_budget_exceeded"
reason_code judgement_deadline_exceeded = "judgement_deadline_exceeded"
reason_code subject_not_found = "subject_not_found"
reason_code brief_store_unavailable = "brief_store_unavailable"
reason_code load_shed = "load_shed"
reason_code payload_too_large = "payload_too_large"

unfoldable pub http_status : DodealError → ℕ
http_status invalid_request = 422
http_status lead_not_found = 404
http_status note_not_found = 404
http_status duplicate_request = 409
http_status idempotency_unavailable = 503
http_status backend_unavailable = 503
http_status backend_rejected = 503
http_status model_unavailable = 503
http_status malformed_output = 503
http_status token_budget_exceeded = 429
http_status judgement_deadline_exceeded = 503
http_status subject_not_found = 404
http_status brief_store_unavailable = 503
http_status load_shed = 503
http_status payload_too_large = 413

-- What an exception that reaches a handler is: one of these, a request that the framework could not
-- validate, a deliberate HTTPException with its own status and detail, or anything else.
pub data Escaped : Type 0 where
  dodeal : DodealError → Escaped
  validation_failed : Escaped
  http_exception : ℕ → String → Escaped
  unexpected : Escaped

-- A JSON response; the generic one and a passed-on HTTPException have no reason.
pub record Response : Type 0 where
  pub status : ℕ
  pub detail : String
  pub reason : Option String
  pub request_id : Option String

module _ (phrase : ℕ → String) where
  unfoldable pub unit_error_body : String → ℕ → String → Response
  unit_error_body code status request_id = record {
    status = status;
    detail = phrase status;
    reason = some code;
    request_id = some request_id;
  }

  unfoldable pub dodeal_error_response : DodealError → String → Response
  unfolding unit_error_body reason_code http_status
  dodeal_error_response error request_id =
      unit_error_body (reason_code error) (http_status error) request_id

  -- The four registered handlers, the most specific first.
  unfoldable pub handle : Escaped → String → Response
  unfolding dodeal_error_response unit_error_body
  handle (dodeal error) request_id = dodeal_error_response error request_id
  handle validation_failed request_id = unit_error_body "invalid_request" 422 request_id
  handle (http_exception status detail) request_id = record {
    status = status;
    detail = detail;
    reason = none;
    request_id = none;
  }
  handle unexpected request_id = record {
    status = 500;
    detail = "Internal Server Error";
    reason = none;
    request_id = some request_id;
  }
