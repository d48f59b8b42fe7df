-- ===== src/Llm/Errors.antt =====
-- agent-service/app/llm/errors.py.
use enterprise_data_copilot.Prelude.{Bool, true, false}
use enterprise_data_copilot.Codes.{
  Code, llm_configuration_error, llm_authentication_error, llm_request_rejected, llm_rate_limited,
  llm_timeout, llm_unavailable, llm_invalid_response,
}

-- The subclasses of `LLMError`.
pub data LlmError : Type 0 where
  configuration authentication request_rejected rate_limit timed_out unavailable : LlmError
  invalid_response : LlmError

abbrev pub llm_code : LlmError → Code
llm_code configuration = llm_configuration_error
llm_code authentication = llm_authentication_error
llm_code request_rejected = llm_request_rejected
llm_code rate_limit = llm_rate_limited
llm_code timed_out = llm_timeout
llm_code unavailable = llm_unavailable
llm_code invalid_response = llm_invalid_response

abbrev pub is_retryable : LlmError → Bool
is_retryable configuration = false
is_retryable authentication = false
is_retryable request_rejected = false
is_retryable rate_limit = true
is_retryable timed_out = true
is_retryable unavailable = true
is_retryable invalid_response = true
