-- ===== src/Middleware/BodyLimit.antt =====
-- The limit on a request's body (src/dodeal_ai/middleware/body_limit.py).
--
-- The application inside is a parameter: a program that receives and sends ASGI messages, may react to
-- the exception that its own `receive` raises, and may raise. PayloadTooLarge is raised nowhere else. The messages that come from outside are a list, and
-- after its end a read gives a disconnect. The body of the 413 is left out.
pub mod Transparent
pub mod Refusal
use do_deal_ai.Prelude.{
  ℕ, ◌+◌, Bool, true, false, not, ◌&&◌, ◌||◌, Option, none, some, List, [], ◌∷◌, ◌++◌, String, ltb,
  leb, if◌then◌else◌,
}

-- `http.request` with the length of its body, and any other message.
pub data Message : Type 0 where
  request_part : ℕ → Message
  other_message : Message

-- `http.response.start`, any other message of the application, and the middleware's own 413.
pub data Sent : Type 0 where
  response_start response_other payload_too_large : Sent

-- How the application ends: it returns, lets out the PayloadTooLarge of its read, or another exception.
pub data End : Type 0 where
  returned raised_too_large raised_other : End

-- What the application does next. It gets `none` where its read raises PayloadTooLarge; `raise_on` lets
-- that exception out, and with nothing to let out it is an error of the application's own, as `fail` is.
pub data App : Type 0 where
  finished raise_on fail : App
  receive : (Option Message → App) → App
  send : Sent → App → App

-- The variables of one call, what has gone out, and the bytes that the application has been given.
pub record Progress : Type 0 where
  pub received : ℕ
  pub refused : Bool
  pub started : Bool
  pub wire : List Sent
  pub given : ℕ

abbrev pub fresh : Progress
fresh = record { received = 0; refused = false; started = false; wire = []; given = 0 }

abbrev pub size : Message → ℕ
size (request_part n) = n
size other_message = 0

abbrev pub is_part : Message → Bool
is_part (request_part n) = true
is_part other_message = false

-- `counting_receive`, for a message that has come.
unfoldable pub counting_receive : ℕ → Message → Progress → Option Message × Progress
counting_receive cap message p =
    let total = p.received + size message in
    if is_part message && ltb cap total
    then (none, record p { received = total; refused = true })
    else (some message, record p { received = total; given = p.given + size message })

abbrev pub is_start : Sent → Bool
is_start response_start = true
is_start response_other = false
is_start payload_too_large = false

-- `guarded_send`.
unfoldable pub guarded_send : Sent → Progress → Progress
guarded_send message p =
    if p.refused && not p.started
    then p
    else record p { started = p.started || is_start message; wire = p.wire ++ message ∷ [] }

abbrev pub next_message : List Message → Message
next_message [] = other_message
next_message (message ∷ rest) = message

abbrev pub later_messages : List Message → List Message
later_messages [] = []
later_messages (message ∷ rest) = rest

-- The application under the two wrappers.
unfoldable pub run_app : ℕ → App → List Message → Progress → Progress × End
unfolding counting_receive guarded_send
run_app cap finished messages p = (p, returned)
run_app cap raise_on messages p = (p, if p.refused then raised_too_large else raised_other)
run_app cap fail messages p = (p, raised_other)
run_app cap (receive next) messages p =
    let (message, p') = counting_receive cap (next_message messages) p in
    run_app cap (next message) (later_messages messages) p'
run_app cap (send message next) messages p = run_app cap next messages (guarded_send message p)

-- `except PayloadTooLarge: pass`.
unfoldable pub caught : End → End
caught returned = returned
caught raised_too_large = returned
caught raised_other = raised_other

-- The end of `__call__`: the middleware's own answer, where the body was refused in time. An exception
-- that is not caught goes past it.
unfoldable pub refuse_in_time : Progress → End → List Sent × End
refuse_in_time p returned =
    (if p.refused && not p.started then p.wire ++ payload_too_large ∷ [] else p.wire, returned)
refuse_in_time p raised_too_large = (p.wire, raised_too_large)
refuse_in_time p raised_other = (p.wire, raised_other)

unfoldable pub answer : Progress × End → List Sent × End
unfolding caught refuse_in_time
answer (p, end) = refuse_in_time p (caught end)

abbrev pub is_over : ℕ → Option ℕ → Bool
is_over cap none = false
is_over cap (some declared) = ltb cap declared

-- `_declared_length` on the first such header's value: `as_integer` is Python's `int`, with a negative
-- number as `none`.
unfoldable pub declared_length : (String → Option ℕ) → List String → Option ℕ
declared_length as_integer [] = none
declared_length as_integer (value ∷ rest) = as_integer value

-- `__call__` for an http scope.
unfoldable pub call : ℕ → Option ℕ → App → List Message → List Sent × End
unfolding run_app answer
call cap declared app messages =
    if is_over cap declared
    then (payload_too_large ∷ [], returned)
    else answer (run_app cap app messages fresh)

-- The application with nothing around it.
unfoldable pub bare : App → List Message → List Sent × End
bare finished messages = ([], returned)
bare raise_on messages = ([], raised_other)
bare fail messages = ([], raised_other)
bare (receive next) messages = bare (next (some (next_message messages))) (later_messages messages)
bare (send message next) messages = let (later, end) = bare next messages in (message ∷ later, end)
