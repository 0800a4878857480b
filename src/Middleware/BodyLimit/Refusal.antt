-- ===== src/Middleware/BodyLimit/Refusal.antt =====
-- A body over the limit (src/dodeal_ai/middleware/body_limit.py).
use do_deal_ai.Prelude.{
  ℕ, ◌+◌, ◌≤◌, ◌<◌, ◌≡◌, refl, inl, inr, Bool, true, false, not, ◌&&◌, ◌||◌, List, [], ◌∷◌, ◌++◌,
  ltb, arith, any, ltb→lt, if◌then◌else◌, Bool-cases,
}
use do_deal_ai.Middleware.BodyLimit.{
  Message, request_part, other_message, Sent, payload_too_large, End, returned, raised_too_large,
  raised_other, App, finished, raise_on, fail, receive, send, Progress, is_start, counting_receive,
  guarded_send, next_message, later_messages, run_app,
}

-- The application has been given no more than the limit, and never more than has come; what has gone
-- out before a response has started is held, and a refusal means that the limit was passed.
pub record IsGuarded (limit : ℕ) (p : Progress) : Type 0 where
  pub given_within : p.given ≤ limit
  pub given_received : p.refused ≡ false → p.given ≡ p.received
  pub passed : p.refused ≡ true → limit < p.received
  pub unstarted : p.started ≡ false → any is_start p.wire ≡ false

receive-IsGuarded :
    (limit : ℕ) (message : Message) (p : Progress)
    → IsGuarded limit p
    → IsGuarded limit (counting_receive limit message p).1
unfolding counting_receive
receive-IsGuarded limit (request_part n) p g = elim (Bool-cases (ltb limit (p.received + n))) [
  | inl over ↦ rw over (record {
    given_within = g.given_within;
    given_received = λ h. absurd (cc h);
    passed = λ h. ltb→lt limit (p.received + n) over;
    unstarted = g.unstarted;
  })
  | inr room ↦ rw room (fits room)
]
  where
    fits :
        ltb limit (p.received + n) ≡ false
        → IsGuarded limit (record p { received = p.received + n; given = p.given + n })
    fits room = elim (Bool-cases p.refused) [
      | inl r ↦ absurd (let over = g.passed r in ground (arith, room, over))
      | inr r ↦
          let same = g.given_received r in
          record {
            given_within = ground (arith, room, same);
            given_received = λ h. omega (arith, same);
            passed = λ h. absurd (cc (r, h));
            unstarted = g.unstarted;
          }
    ]
receive-IsGuarded limit other_message p g = record {
  given_within = let w = g.given_within in omega arith;
  given_received = λ h. let same = g.given_received h in omega (arith, same);
  passed = λ h. let over = g.passed h in omega (arith, over);
  unstarted = g.unstarted;
}

any-append :
    (sent : List Sent) (message : Sent)
    → any is_start sent ≡ false
    → is_start message ≡ false
    → any is_start (sent ++ message ∷ []) ≡ false
any-append [] message h k = rw k refl
any-append (x ∷ xs) message h k = let rest = any-append xs message (ground arith) k in ground arith

send-IsGuarded :
    (limit : ℕ) (message : Sent) (p : Progress)
    → IsGuarded limit p
    → IsGuarded limit (guarded_send message p)
unfolding guarded_send
send-IsGuarded limit message p g = elim (Bool-cases (p.refused && not p.started)) [
  | inl drop ↦ rw drop g
  | inr pass ↦ rw pass (record {
    given_within = g.given_within;
    given_received = g.given_received;
    passed = g.passed;
    unstarted = λ h. out_of (is_start message) refl h;
  })
]
  where
    out_of :
        (b : Bool)
        → is_start message ≡ b
        → (p.started || b) ≡ false
        → any is_start (p.wire ++ message ∷ []) ≡ false
    out_of b e h =
        let none_yet = g.unstarted (ground arith) in
        let not_this : is_start message ≡ false = ground arith in
        any-append p.wire message none_yet not_this

pub run_app-IsGuarded :
    (limit : ℕ) (app : App) (messages : List Message) (p : Progress)
    → IsGuarded limit p
    → IsGuarded limit (run_app limit app messages p).0
unfolding run_app
run_app-IsGuarded limit finished messages p g = g
run_app-IsGuarded limit raise_on messages p g = g
run_app-IsGuarded limit fail messages p g = g
run_app-IsGuarded limit (receive next) messages p g =
    run_app-IsGuarded limit (next (counting_receive limit (next_message messages) p).0)
      (later_messages messages) (counting_receive limit (next_message messages) p).1
      (receive-IsGuarded limit (next_message messages) p g)
run_app-IsGuarded limit (send message next) messages p g =
    run_app-IsGuarded limit next messages (guarded_send message p)
      (send-IsGuarded limit message p g)

-- What goes out where no exception of the application's own escapes.
abbrev pub Answered : ℕ → Progress → List Sent × End → Type 0
Answered limit p out =
    if p.refused && not p.started
    then (limit < p.received)
      × (any is_start p.wire ≡ false)
      × (out ≡ (p.wire ++ payload_too_large ∷ [], returned))
    else out ≡ (p.wire, returned)

-- By how the application ended.
abbrev pub Passed : ℕ → Progress → End → List Sent × End → Type 0
Passed limit p returned out = Answered limit p out
Passed limit p raised_too_large out = Answered limit p out
Passed limit p raised_other out = out ≡ (p.wire, raised_other)

-- What goes out for a request and how it ends, with what the application makes of it.
abbrev pub Guarded : ℕ → Bool → Progress × End → List Sent × End → Type 0
Guarded limit declared_over r out =
    if declared_over then out ≡ (payload_too_large ∷ [], returned) else Passed limit r.0 r.1 out
