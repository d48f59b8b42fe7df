-- ===== src/Agent/Failures.antt =====
-- The exceptions that a node can raise, and agent-service/app/agent/error_policy.py.
use enterprise_data_copilot.Prelude.{Text, Bool, true, false, ◌||◌, codes, if◌then◌else◌}
use enterprise_data_copilot.Prelude.Strings.{is_infix}
use enterprise_data_copilot.Codes.{code_text}
use enterprise_data_copilot.Llm.Errors.{LlmError, llm_code, is_retryable}
use enterprise_data_copilot.Nl2sql.Errors.{Nl2sqlError, nl2sql_code}
use enterprise_data_copilot.QuerySafety.Errors.{QuerySafetyError}
use enterprise_data_copilot.QuerySafety.Errors

-- `with_code` is an exception of another class with a `code`, and `other` one without, each with
-- the name of its class in upper case.
pub data Failure : Type 0 where
  llm : LlmError → Failure
  nl2sql : Nl2sqlError → Failure
  query : QuerySafetyError → Failure
  http_timeout http_transport value_error type_error : Text → Failure
  with_code : Text → Failure
  other : Text → Failure

pub data Category : Type 0 where
  model timeout transport validation policy storage internal : Category

-- `getattr(error, "code", error.__class__.__name__.upper())`
unfoldable pub failure_code : Failure → Text
failure_code (llm e) = code_text (llm_code e)
failure_code (nl2sql e) = code_text (nl2sql_code e)
failure_code (query e) = code_text (Errors.error_code e)
failure_code (http_timeout name) = name
failure_code (http_transport name) = name
failure_code (value_error name) = name
failure_code (type_error name) = name
failure_code (with_code code) = code
failure_code (other name) = name

-- `getattr(error, "code", "")`
abbrev policy_code : Failure → Text
policy_code (nl2sql e) = code_text (nl2sql_code e)
policy_code (query e) = code_text (Errors.error_code e)
policy_code (with_code code) = code
policy_code e = codes ""

abbrev by_code : Text → Category × Bool
by_code code =
    if is_infix (codes "POLICY") code || is_infix (codes "REJECT") code
    then (policy, false)
    else if is_infix (codes "STORE") code
    then (storage, false)
    else (internal, false)

-- The category and whether the failure may be retried.
unfoldable pub classify_error : Failure → Category × Bool
unfolding code_text
classify_error (llm e) = (model, is_retryable e)
classify_error (http_timeout name) = (timeout, true)
classify_error (http_transport name) = (transport, true)
classify_error (value_error name) = (validation, false)
classify_error (type_error name) = (validation, false)
classify_error e = by_code (policy_code e)
