-- ===== src/Codes.antt =====
-- The stable codes that cross the boundaries of agent-service/app: the `code` and `reason_code`
-- strings of its exception classes and of its state, one constructor for each string.
use enterprise_data_copilot.Prelude.{Text, codes}

pub data Code : Type 0 where
  -- agent-service/app/query_safety/guard.py
  empty_query sql_parse_error multiple_statements non_read_only_statement : Code
  forbidden_sql_operation forbidden_function function_not_allowed : Code
  cross_schema_reference table_not_allowed recursive_query_not_allowed : Code
  cartesian_join_not_allowed column_not_allowed : Code
  -- agent-service/app/query_safety/errors.py and service.py
  query_safety_error sql_policy_violation query_timeout query_permission_denied : Code
  query_execution_failed query_result_limit_exceeded query_audit_failed : Code
  query_approval_required total_cost_limit_exceeded plan_rows_limit_exceeded : Code
  query_executed : Code
  -- agent-service/app/nl2sql
  nl2sql_question_rejected nl2sql_schema_selection_failed nl2sql_repair_exhausted : Code
  empty_question question_too_long write_request_not_allowed : Code
  safety_override_not_allowed secret_request_not_allowed : Code
  cross_tenant_request_not_allowed sensitive_data_not_allowed : Code
  arbitrary_code_not_allowed : Code
  -- agent-service/app/llm/errors.py
  llm_configuration_error llm_authentication_error llm_request_rejected : Code
  llm_rate_limited llm_timeout llm_unavailable llm_invalid_response : Code
  -- agent-service/app/agent
  rag_insufficient_evidence controlled_sensitive_column low_model_confidence : Code
  result_columns_mismatch approval_rejected agent_workflow_failed : Code
  workflow_not_waiting_approval workflow_identity_mismatch : Code

pub Code-discrete : Discrete Code
Code-discrete = hlevel

-- The string itself.
unfoldable pub code_text : Code → Text
code_text empty_query = codes "EMPTY_QUERY"
code_text sql_parse_error = codes "SQL_PARSE_ERROR"
code_text multiple_statements = codes "MULTIPLE_STATEMENTS"
code_text non_read_only_statement = codes "NON_READ_ONLY_STATEMENT"
code_text forbidden_sql_operation = codes "FORBIDDEN_SQL_OPERATION"
code_text forbidden_function = codes "FORBIDDEN_FUNCTION"
code_text function_not_allowed = codes "FUNCTION_NOT_ALLOWED"
code_text cross_schema_reference = codes "CROSS_SCHEMA_REFERENCE"
code_text table_not_allowed = codes "TABLE_NOT_ALLOWED"
code_text recursive_query_not_allowed = codes "RECURSIVE_QUERY_NOT_ALLOWED"
code_text cartesian_join_not_allowed = codes "CARTESIAN_JOIN_NOT_ALLOWED"
code_text column_not_allowed = codes "COLUMN_NOT_ALLOWED"
code_text query_safety_error = codes "QUERY_SAFETY_ERROR"
code_text sql_policy_violation = codes "SQL_POLICY_VIOLATION"
code_text query_timeout = codes "QUERY_TIMEOUT"
code_text query_permission_denied = codes "QUERY_PERMISSION_DENIED"
code_text query_execution_failed = codes "QUERY_EXECUTION_FAILED"
code_text query_result_limit_exceeded = codes "QUERY_RESULT_LIMIT_EXCEEDED"
code_text query_audit_failed = codes "QUERY_AUDIT_FAILED"
code_text query_approval_required = codes "QUERY_APPROVAL_REQUIRED"
code_text total_cost_limit_exceeded = codes "TOTAL_COST_LIMIT_EXCEEDED"
code_text plan_rows_limit_exceeded = codes "PLAN_ROWS_LIMIT_EXCEEDED"
code_text query_executed = codes "QUERY_EXECUTED"
code_text nl2sql_question_rejected = codes "NL2SQL_QUESTION_REJECTED"
code_text nl2sql_schema_selection_failed = codes "NL2SQL_SCHEMA_SELECTION_FAILED"
code_text nl2sql_repair_exhausted = codes "NL2SQL_REPAIR_EXHAUSTED"
code_text empty_question = codes "EMPTY_QUESTION"
code_text question_too_long = codes "QUESTION_TOO_LONG"
code_text write_request_not_allowed = codes "WRITE_REQUEST_NOT_ALLOWED"
code_text safety_override_not_allowed = codes "SAFETY_OVERRIDE_NOT_ALLOWED"
code_text secret_request_not_allowed = codes "SECRET_REQUEST_NOT_ALLOWED"
code_text cross_tenant_request_not_allowed = codes "CROSS_TENANT_REQUEST_NOT_ALLOWED"
code_text sensitive_data_not_allowed = codes "SENSITIVE_DATA_NOT_ALLOWED"
code_text arbitrary_code_not_allowed = codes "ARBITRARY_CODE_NOT_ALLOWED"
code_text llm_configuration_error = codes "LLM_CONFIGURATION_ERROR"
code_text llm_authentication_error = codes "LLM_AUTHENTICATION_ERROR"
code_text llm_request_rejected = codes "LLM_REQUEST_REJECTED"
code_text llm_rate_limited = codes "LLM_RATE_LIMITED"
code_text llm_timeout = codes "LLM_TIMEOUT"
code_text llm_unavailable = codes "LLM_UNAVAILABLE"
code_text llm_invalid_response = codes "LLM_INVALID_RESPONSE"
code_text rag_insufficient_evidence = codes "RAG_INSUFFICIENT_EVIDENCE"
code_text controlled_sensitive_column = codes "CONTROLLED_SENSITIVE_COLUMN"
code_text low_model_confidence = codes "LOW_MODEL_CONFIDENCE"
code_text result_columns_mismatch = codes "RESULT_COLUMNS_MISMATCH"
code_text approval_rejected = codes "APPROVAL_REJECTED"
code_text agent_workflow_failed = codes "AGENT_WORKFLOW_FAILED"
code_text workflow_not_waiting_approval = codes "WORKFLOW_NOT_WAITING_APPROVAL"
code_text workflow_identity_mismatch = codes "WORKFLOW_IDENTITY_MISMATCH"
