-- ===== src/QuerySafety/Errors.antt =====
-- agent-service/app/query_safety/errors.py.
use enterprise_data_copilot.Prelude.{ℕ}
use enterprise_data_copilot.Codes.{
  Code, sql_policy_violation, query_timeout, query_permission_denied, query_execution_failed,
  query_result_limit_exceeded, query_audit_failed, query_approval_required,
}

-- The subclasses of `QuerySafetyError` with what they carry: a reason code, and for an approval
-- the estimated cost and the estimated rows.
pub data QuerySafetyError : Type 0 where
  policy_violation : Code → QuerySafetyError
  timeout permission_denied execution_failed result_limit audit_failed : QuerySafetyError
  approval_required : Code → ℕ → ℕ → QuerySafetyError

-- The class attribute `code`.
abbrev pub error_code : QuerySafetyError → Code
error_code (policy_violation reason) = sql_policy_violation
error_code timeout = query_timeout
error_code permission_denied = query_permission_denied
error_code execution_failed = query_execution_failed
error_code result_limit = query_result_limit_exceeded
error_code audit_failed = query_audit_failed
error_code (approval_required reason cost rows) = query_approval_required

-- What a call can raise: an error of this hierarchy, or any other exception.
pub data Raised : Type 0 where
  safety : QuerySafetyError → Raised
  unexpected : Raised
