-- ===== src/Providers/Examples.antt =====
-- Two providers under test: the first answers with a 503, the second with a completion.
use do_deal_ai.Prelude.{◌≡◌, refl, ◌⊎◌, none, some, [], ◌∷◌, ok}
use do_deal_ai.Breaker.{CircuitBreaker, new_breaker, admit, run}
use do_deal_ai.Passes.{stop}
use do_deal_ai.Providers.{Exchange, replied, Completion, complete, complete_either}
use do_deal_ai.Providers.Fallback.{GaveNoBody, complete_either_lem}
use do_deal_ai.Providers.Evidence.{IsMoved, complete-IsMoved}

abbrev overloaded : Exchange
overloaded = record {
  arrives = 10;
  meanwhile = [];
  ends = 12;
  sending = replied (record { status = 503; headers = none ∷ none ∷ []; body = none });
}

abbrev completion : Completion
completion = record {
  text = some "{}";
  prompt_tokens = 40;
  completion_tokens = 2;
  model = "m2";
  finish_reason = some "stop";
  id = some "bad id";
}

abbrev replying : Exchange
replying = record {
  arrives = 12;
  meanwhile = [];
  ends = 15;
  sending =
      replied (record { status = 200; headers = none ∷ some "req-7" ∷ []; body = some completion });
}

abbrev breaker : CircuitBreaker
breaker = new_breaker 5 30

second_answers :
    (complete_either overloaded replying breaker breaker).0
    ≡ ok (record {
      text = "{}";
      input_tokens = 40;
      output_tokens = 2;
      model = "m2";
      finish_reason = stop;
      provider_request_id = some "req-7";
    })
unfolding complete_either complete admit new_breaker
second_answers = refl

complete_either_lem_example :
    (GaveNoBody overloaded breaker
      × (complete_either overloaded replying breaker breaker ≡ (
        (complete replying breaker).0,
        ((complete overloaded breaker).1, (complete replying breaker).1),
      )))
    ⊎ (¬ GaveNoBody overloaded breaker
        × (complete_either overloaded replying breaker breaker
            ≡ ((complete overloaded breaker).0, ((complete overloaded breaker).1, breaker))))
complete_either_lem_example = complete_either_lem overloaded replying breaker breaker

complete-IsMoved_example :
    IsMoved overloaded
      (run overloaded.meanwhile (admit overloaded.arrives breaker).1)
      (complete overloaded breaker).1
unfolding admit new_breaker
complete-IsMoved_example = complete-IsMoved overloaded breaker refl
