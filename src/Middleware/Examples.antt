-- ===== src/Middleware/Examples.antt =====
-- A chunked body over the limit, and a second request under a limit of one
-- (src/dodeal_ai/middleware).
use do_deal_ai.Prelude.{◌≡◌, refl, none, some, List, [], ◌∷◌, arith}
use do_deal_ai.Middleware.BodyLimit.{
  Message, request_part, response_start, response_other, payload_too_large, returned, raised_other,
  App, finished, raise_on, fail, receive, send, call, bare,
}
use do_deal_ai.Middleware.BodyLimit.Transparent.{call-bare}
use do_deal_ai.Middleware.Inflight.{
  Process, arrive, started, Reachable, at_start, then_step, arrives,
}
use do_deal_ai.Middleware.Inflight.Count.{IsCounted, Reachable-IsCounted}

-- Reads two messages and answers, with a 400 of its own where a read raises.
abbrev reader : App
reader = receive (λ a. receive (λ b. send response_start (send response_other finished)))

abbrev large : List Message
large = request_part 60 ∷ request_part 60 ∷ []

only_refusal : call 100 none reader large ≡ (payload_too_large ∷ [], returned)
unfolding call
only_refusal = refl

-- Reads the same, lets the refusal out or breaks on it.
abbrev careless : App → App
careless on_refusal =
    receive
      (λ a. receive (λ b. elim b [ none ↦ on_refusal | some m ↦ send response_start finished ]))

refusal_taken : call 100 none (careless raise_on) large ≡ (payload_too_large ∷ [], returned)
unfolding call
refusal_taken = refl

failure_escapes : call 100 none (careless fail) large ≡ ([], raised_other)
unfolding call
failure_escapes = refl

call-bare_example : call 120 (some 7) reader large ≡ bare reader large
call-bare_example = call-bare 120 (some 7) reader large refl (omega arith)

abbrev one_inside : Process
one_inside = (arrive 1 10 "/api/v1/notes/judgements" started).1

one_reached : Reachable 1 one_inside
one_reached = then_step at_start (arrives 10 "/api/v1/notes/judgements")

Reachable-IsCounted_example : IsCounted 1 one_inside
Reachable-IsCounted_example = Reachable-IsCounted one_reached
