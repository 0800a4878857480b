-- ===== src/Middleware/BodyLimit/Transparent.antt =====
-- A body within the limit is not touched (src/dodeal_ai/middleware/body_limit.py).
use do_deal_ai.Prelude.{
  ℕ, ◌+◌, ◌≤◌, ◌≡◌, refl, sym, ap, ◌∙◌, false, ◌||◌, Option, some, List, [], ◌∷◌, ◌++◌, sum_of,
  arith,
}
use mathlib.Core.Path.{subst}
use mathlib.Core.List.{append_assoc, append-nil}
use do_deal_ai.Middleware.BodyLimit.{
  Message, Sent, End, App, finished, raise_on, fail, receive, send, Progress, fresh, size, is_over,
  is_start, counting_receive, guarded_send, next_message, later_messages, run_app, answer, call,
  bare,
}

within :
    (limit : ℕ) (message : Message) (p : Progress)
    → p.received + size message ≤ limit
    → counting_receive limit message p ≡ (
      some message,
      record p { received = p.received + size message; given = p.given + size message },
    )
unfolding counting_receive
within limit message p h = ground arith

not_dropped :
    (message : Sent) (p : Progress)
    → p.refused ≡ false
    → guarded_send message p
      ≡ record p { started = p.started || is_start message; wire = p.wire ++ message ∷ [] }
unfolding guarded_send
not_dropped message p h = rw h refl

sizes_split :
    (messages : List Message)
    → size (next_message messages) + sum_of size (later_messages messages) ≡ sum_of size messages
sizes_split [] = refl
sizes_split (m ∷ ms) = refl

run_app-bare :
    (limit : ℕ) (app : App) (messages : List Message) (p : Progress)
    → p.refused ≡ false
    → p.received + sum_of size messages ≤ limit
    → answer (run_app limit app messages p)
      ≡ (p.wire ++ (bare app messages).0, (bare app messages).1)
unfolding run_app answer bare
run_app-bare limit finished messages p r h = rw (r, append-nil) refl
run_app-bare limit raise_on messages p r h = rw (r, append-nil) refl
run_app-bare limit fail messages p r h = rw append-nil refl
run_app-bare limit (receive next) messages p r h =
    let split = sizes_split messages in
    subst
      (λ (r : Option Message × Progress).
        answer (run_app limit (next r.0) (later_messages messages) r.1) ≡ (
          p.wire ++ (bare (next (some (next_message messages))) (later_messages messages)).0,
          (bare (next (some (next_message messages))) (later_messages messages)).1,
        ))
      (sym (within limit (next_message messages) p (omega (arith, split))))
      (run_app-bare limit (next (some (next_message messages))) (later_messages messages)
        (record p {
          received = p.received + size (next_message messages);
          given = p.given + size (next_message messages);
        })
        r (omega (arith, split)))
run_app-bare limit (send message next) messages p r h =
    subst
      (λ (p' : Progress).
        answer (run_app limit next messages p')
        ≡ (p.wire ++ message ∷ (bare next messages).0, (bare next messages).1))
      (sym (not_dropped message p r))
      (run_app-bare limit next messages
          (record p { started = p.started || is_start message; wire = p.wire ++ message ∷ [] }) r h
        ∙ ap (λ (l : List Sent). let r : List Sent × End = (l, (bare next messages).1) in r)
            (append_assoc p.wire (message ∷ []) (bare next messages).0))

-- A request whose length is not declared over the limit, and whose messages together are within it, is
-- answered, or ends in the application's exception, as if the middleware were not there, whatever the
-- application does.
pub call-bare :
    (limit : ℕ) (declared : Option ℕ) (app : App) (messages : List Message)
    → is_over limit declared ≡ false
    → sum_of size messages ≤ limit
    → call limit declared app messages ≡ bare app messages
unfolding call
call-bare limit declared app messages over h =
    rw over (run_app-bare limit app messages fresh refl (omega (arith, h)))
