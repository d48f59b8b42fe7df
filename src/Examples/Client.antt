-- ===== src/Examples/Client.antt =====
-- A provider that answers in the third attempt.
use enterprise_data_copilot.Prelude.{ℕ, zero, suc, arith, none, some, codes}
use enterprise_data_copilot.Llm.Errors.{rate_limit}
use enterprise_data_copilot.Llm.Client.Generate.{
  LlmCompletion, Answer, completed, timeout, failed, Settings, generate,
}
use enterprise_data_copilot.Llm.Client.Retries.{IsBounded, generate-IsBounded}

abbrev settings : Settings
settings = record {
  provider_name = codes "provider";
  max_attempts = 3;
  invalid_response_retries = 1;
  initial_backoff = 2;
  max_backoff = 3;
}

abbrev completion : LlmCompletion
completion = record {
  content = codes "{}";
  model = codes "model";
  request_id = none;
  usage = record { input_tokens = none; output_tokens = none; total_tokens = none };
}

abbrev provider : ℕ → Answer
provider (suc zero) = failed rate_limit
provider (suc (suc zero)) = timeout
provider n = completed completion

generate-IsBounded_example :
    IsBounded settings provider
      (λ content. some content)
      1
      (generate settings provider (λ content. some content))
generate-IsBounded_example =
    generate-IsBounded settings provider (λ content. some content) (omega arith)
