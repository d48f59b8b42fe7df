-- ===== src/QuerySafety/Result.antt =====
-- The result, estimate, context and audit models of agent-service/app/query_safety/models.py.
-- A UUID is only compared, so it is a number; a time is in whole units of its clock.
use enterprise_data_copilot.Prelude.{ℕ, Text, Bool, Option, List}
use enterprise_data_copilot.Prelude.Dict.{Dict}
use enterprise_data_copilot.Codes.{Code}

-- `V` is the type of the values that `json.loads` returns.
pub record QueryExecutionResult (V : Type 0) : Type 0 where
  pub columns : List Text
  pub rows : List (Dict Text V)
  pub returned_row_count : ℕ
  pub serialized_bytes : ℕ
  pub truncated : Bool

pub record QueryCostEstimate : Type 0 where
  pub total_cost : ℕ
  pub plan_rows : ℕ

pub record QueryContext : Type 0 where
  pub tenant_id : ℕ
  pub user_id : ℕ
  pub job_id : ℕ
  pub data_source_id : ℕ
  pub trace_id : Text

pub data QueryAuditStatus : Type 0 where
  succeeded rejected approval_required failed : QueryAuditStatus

pub record QueryAuditEvent : Type 0 where
  pub event_id : ℕ
  pub occurred_at : ℕ
  pub tenant_id : ℕ
  pub user_id : ℕ
  pub job_id : ℕ
  pub data_source_id : ℕ
  pub trace_id : Text
  pub status : QueryAuditStatus
  pub reason_code : Code
  pub query_fingerprint : Text
  pub referenced_tables : List Text
  pub planner_invoked : Bool
  pub executor_invoked : Bool
  pub estimated_total_cost : Option ℕ
  pub estimated_plan_rows : Option ℕ
  pub returned_rows : ℕ
  pub returned_columns : ℕ
  pub serialized_bytes : ℕ
  pub result_truncated : Bool
  pub duration_ms : ℕ

pub record SafeQueryOutcome (V : Type 0) : Type 0 where
  pub result : QueryExecutionResult V
  pub audit : QueryAuditEvent
