-- ===== src/Llm/Client/Generate.antt =====
-- `generate`: one request, repeated while an error is worth it. A duration is a whole number of
-- units of 2 ^ -1074 seconds, in which every finite float of zero or more is whole.
use enterprise_data_copilot.Prelude.{
  ℕ, zero, suc, ◌+◌, ◌*◌, ◌-◌, ◌^◌, min, Text, Bool, not, ◌&&◌, List, [], ◌∷◌, Option, none, some,
  ltb, leb, if◌then◌else◌, ◌||◌,
}
use enterprise_data_copilot.Prelude.Result.{Result, ok, err}
use enterprise_data_copilot.Llm.Errors.{LlmError, timed_out, invalid_response, is_retryable}

-- `LLMTokenUsage` of agent-service/app/llm/models.py.
pub record LlmTokenUsage : Type 0 where
  pub input_tokens : Option ℕ
  pub output_tokens : Option ℕ
  pub total_tokens : Option ℕ

-- `LLMCompletion`.
pub record LlmCompletion : Type 0 where
  pub content : Text
  pub model : Text
  pub request_id : Option Text
  pub usage : LlmTokenUsage

-- `StructuredLLMResult`.
pub record StructuredLlmResult (A : Type 0) : Type 0 where
  pub output : A
  pub provider : Text
  pub model : Text
  pub request_id : Option Text
  pub attempts : ℕ
  pub usage : LlmTokenUsage

-- How a call of the provider ends within the time limit of the request, or beyond it; `broken` is
-- any exception that is no `LLMError`.
pub data Answer : Type 0 where
  completed : LlmCompletion → Answer
  timeout : Answer
  failed : LlmError → Answer
  broken : Answer

-- What `generate` raises: a classified error, the provider's other exception, or the
-- `AssertionError` behind the loop.
pub data GenerateError : Type 0 where
  classified : LlmError → GenerateError
  unclassified assertion : GenerateError

pub record Settings : Type 0 where
  pub provider_name : Text
  pub max_attempts : ℕ
  pub invalid_response_retries : ℕ
  pub initial_backoff : ℕ
  pub max_backoff : ℕ

-- The checks of the constructor.
abbrev pub is_accepted : Settings → Bool
is_accepted s = leb 1 s.max_attempts && leb s.invalid_response_retries 1

-- What a call did besides: the waits that it scheduled, in order.
abbrev pub Waited : Type 0 → Type 0
Waited A = Result GenerateError (StructuredLlmResult A) × List ℕ

module _ {A : Type 0} (s : Settings) (provider : ℕ → Answer) (validate : Text → Option A) where
  -- `_schedule_retry`
  unfoldable pub delay : ℕ → ℕ
  delay attempt = min (s.initial_backoff * 2 ^ (attempt - 1)) s.max_backoff

  abbrev pub wait : ℕ → Waited A → Waited A
  wait attempt (result, waits) = (result, delay attempt ∷ waits)

  -- `_retry`: whether another attempt follows an error.
  abbrev pub may_retry : LlmError → ℕ → Bool
  may_retry error attempt = not (not (is_retryable error) || leb s.max_attempts attempt)

  abbrev pub result_of : LlmCompletion → A → ℕ → StructuredLlmResult A
  result_of c output attempt = record {
    output = output;
    provider = s.provider_name;
    model = c.model;
    request_id = c.request_id;
    attempts = attempt;
    usage = c.usage;
  }

  -- The loop body on the provider's answer; `again used` is the rest of the loop, with that many
  -- invalid responses retried.
  abbrev pub after_answer : ℕ → ℕ → (ℕ → Waited A) → Answer → Waited A
  after_answer attempt used again timeout =
      if may_retry timed_out attempt
      then wait attempt (again used)
      else (err (classified timed_out), [])
  after_answer attempt used again (failed error) =
      if may_retry error attempt then wait attempt (again used) else (err (classified error), [])
  after_answer attempt used again broken = (err unclassified, [])
  after_answer attempt used again (completed c) = elim (validate c.content) [
    | some output ↦ (ok (result_of c output attempt), [])
    | none ↦
        if ltb used s.invalid_response_retries && ltb attempt s.max_attempts
        then wait attempt (again (used + 1))
        else (err (classified invalid_response), [])
  ]

  -- `for attempt in range(1, max_attempts + 1)`, on the rounds that are left.
  unfoldable pub attempt_from : ℕ → ℕ → ℕ → Waited A
  unfolding delay
  attempt_from zero attempt used = (err assertion, [])
  attempt_from (suc left) attempt used =
      after_answer attempt used (λ used'. attempt_from left (attempt + 1) used') (provider attempt)

  unfoldable pub generate : Waited A
  unfolding attempt_from
  generate = attempt_from s.max_attempts 1 0
