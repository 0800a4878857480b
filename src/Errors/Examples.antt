-- ===== src/Errors/Examples.antt =====
-- Two failures with one status (src/dodeal_ai/core/errors.py).
use do_deal_ai.Prelude.{◌≡◌, ◌↔◌}
use do_deal_ai.Errors.{lead_not_found, note_not_found, dodeal, handle}
use do_deal_ai.Errors.Codes.{failure_of, handle-reason_iff}

handle-reason_iff_example :
    ((handle (λ status. "Not Found") (dodeal lead_not_found) "r1").reason
      ≡ (handle (λ status. "Not Found") (dodeal note_not_found) "r2").reason)
    ↔ (failure_of (dodeal lead_not_found) ≡ failure_of (dodeal note_not_found))
handle-reason_iff_example =
    handle-reason_iff (λ status. "Not Found") (dodeal lead_not_found) (dodeal note_not_found) "r1"
      "r2"
