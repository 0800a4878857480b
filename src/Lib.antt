-- ===== src/Lib.antt =====
-- Verification of the judgement core of DODEAL AI, the service that scores salespeople's CRM notes.
--
-- A request for a judgement is let in by the middleware, which bounds its body and the number of
-- requests inside. The lead and its notes are read from the CRM, unless the note came with the request.
-- A note outside the length bounds is suppressed; else the request reserves an idempotency key, or
-- repeats the judgement that is stored under it. A language model then classifies the note, looks for
-- vagueness and answers yes-or-no checks, and the answers become a score by arithmetic alone. A
-- decision follows: accept, flag, or ask the salesperson a question, which a cap per note and two rate
-- limits per person hold back. The judgement is stored under the key, and on any failure the key is
-- released. Rows of past judgements are folded into three measures. All shared state is in Redis, and
-- every call of it runs under a circuit breaker.
--
-- Files and the code that they are about (paths from the repository's root):
--   Prelude        names of the libraries passed on, Boolean tests, lists over native numbers
--   Schemas        src/dodeal_ai/units/structured_intelligence/schemas.py: vocabularies and records
--   TenantConfig   .../config.py: the rubric, mark derivation, bands; TenantConfig/File the tenant's
--                  file over the default with every test of `_check`
--   Scoring        .../scoring.py: applicability, `validate_checks`, `compute_score`
--   Decide         .../decide.py: `_action`, `enforcement`, `withheld_reason`, `decide`
--   Breaker        src/dodeal_ai/core/breaker.py: the circuit breaker as a function on histories of
--                  arrivals and ends of calls
--   Redis          src/dodeal_ai/core/redis.py: the server as a parameter with its documented laws;
--                  Redis/Links how a call can go wrong, Redis/Table a table in memory with those laws
--   Limiter        src/dodeal_ai/core/cost/limiter.py: both scripts, the gate, warnings, pre-flight
--   State          .../state.py: idempotency keys, and the script that takes prompt slots
--   Errors         src/dodeal_ai/core/errors.py: the enumerated errors and the exception handlers
--   Resilience     src/dodeal_ai/core/resilience.py: `call_with_watchdog`, `gather_first_wins`
--   Backend        src/dodeal_ai/tools/leads.py and the reads of .../pipeline.py: `_get`,
--                  `_typed_failure`, `_fetch_note`
--   Passes         .../llm_call.py: `complete_once`, `parse_output`, `call_model`; Passes/Vague the
--                  passes of .../vague.py and .../scoring.py
--   Providers      src/dodeal_ai/core/llm/openai_compatible.py and fallback.py: a provider's call under
--                  its breaker, its errors, and the second provider behind it
--   Pipeline       .../pipeline.py: `_rate_limit_trip` and the decision of `_judge`; Pipeline/Length
--                  the length gate and its fixed question; Pipeline/Judge the whole of `_judge`
--                  (Judge/Steps), with `suppression_for` of .../classify.py
--   Measures       .../measures.py: average band, flagged share, improved share
--   Middleware     src/dodeal_ai/middleware/body_limit.py and inflight.py, src/dodeal_ai/core/inflight.py
-- where `...` is src/dodeal_ai/units/structured_intelligence.
--
-- How the code is carried over. A mapping from a vocabulary is a function from the data type. An
-- exception is a value: an error constructor, or `none` where the code has one failure. Python's
-- integers are natural numbers where a bound of the code keeps them from being negative, and signed in
-- the two fields of a tenant's file that have no such bound. Clock readings are numbers of ticks, and
-- a ratio of the settings is a fraction. Redis is a record of commands and laws (expiry, INCRBY,
-- EXPIRE, SET with NX, XX and EX, DEL) that the clients take as a parameter; a script is one step,
-- since Redis runs it whole. A call of Redis is answered, runs and loses its reply, or is refused
-- before it is sent, and the code's fail-open and fail-closed branches follow from which. Keys are
-- constructors, which rests on tenant labels having no colon. One judgement is a computation on the
-- store that may raise; at every await it may be cancelled, and the release under `shield` is one step.
-- Python's operations on strings that the length gate uses are a record of functions. An attempt of an
-- external call has a result, a length in time, and what it does once it is cancelled. The application
-- inside the body limit is an interaction tree that may raise, and load shedding is a step relation on
-- the process. No function runs on fuel: every loop is structural recursion over a list, a count or a
-- tree.
--
-- Not modelled: the providers' profiles and requests, prompts and redaction, the judgement deadline
-- and the two entry points of the pipeline, authentication and tenancy, the request id, the HTTP
-- transport, the loading of tenant files, text rendering, metrics and logs.
pub mod Prelude
pub mod Schemas
pub mod TenantConfig
pub mod Scoring
pub mod Decide
pub mod Breaker
pub mod Redis
pub mod Limiter
pub mod State
pub mod Errors
pub mod Resilience
pub mod Backend
pub mod Passes
pub mod Providers
pub mod Pipeline
pub mod Measures
pub mod Middleware
