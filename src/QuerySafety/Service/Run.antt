-- ===== src/QuerySafety/Service/Run.antt =====
-- `execute_fixed`: guard, estimate, execute and record. What the collaborators answer during one
-- call is a parameter; the calls that are made to them are returned beside the result, in order.
use enterprise_data_copilot.Prelude.{
  ℕ, ◌-◌, ◌/◌, Text, Bool, true, false, List, [], ◌∷◌, ◌++◌, Option, none, some, length, ltb,
  if◌then◌else◌,
}
use enterprise_data_copilot.Prelude.Unicode.{Unicode}
use enterprise_data_copilot.Prelude.Result.{Result, ok, err}
use enterprise_data_copilot.Codes.{
  Code, total_cost_limit_exceeded, plan_rows_limit_exceeded, query_executed, query_execution_failed,
}
use enterprise_data_copilot.QuerySafety.SqlGlot.{SqlGlot}
use enterprise_data_copilot.QuerySafety.Errors.{
  policy_violation, execution_failed, audit_failed, approval_required, error_code, Raised, safety,
  unexpected,
}
use enterprise_data_copilot.QuerySafety.Policy.Model.{QueryPolicy}
use enterprise_data_copilot.QuerySafety.Guard.Inspect.{GuardedQuery, inspect, fingerprint_query}
use enterprise_data_copilot.QuerySafety.Result.{
  QueryExecutionResult, QueryCostEstimate, QueryContext, QueryAuditStatus, QueryAuditEvent,
  SafeQueryOutcome,
}

-- The collaborators over the fixed data source, and the clock readings of one call.
pub record Collaborators (V : Type 0) : Type 0 where
  pub cost_estimator : Option (GuardedQuery → Result Raised QueryCostEstimate)
  pub executor : GuardedQuery → QueryPolicy → Result Raised (QueryExecutionResult V)
  pub audit_sink : QueryAuditEvent → Bool  -- whether `record` returns
  pub event_id : ℕ
  pub started_at : ℕ
  pub started_ns : ℕ
  pub finished_ns : ℕ

-- A call of a collaborator.
pub data Call : Type 0 where
  estimated executed : GuardedQuery → Call
  recorded : QueryAuditEvent → Call

-- The arguments of `_event` that differ between its calls.
pub record Report (V : Type 0) : Type 0 where
  pub status : QueryAuditStatus
  pub reason_code : Code
  pub query_fingerprint : Text
  pub referenced_tables : List Text
  pub planner_invoked : Bool
  pub executor_invoked : Bool
  pub estimate : Option QueryCostEstimate
  pub result : Option (QueryExecutionResult V)

unfoldable pub approval_reason : QueryCostEstimate → QueryPolicy → Option Code
approval_reason estimate p =
    if ltb p.max_total_cost estimate.total_cost
    then some total_cost_limit_exceeded
    else if ltb p.max_plan_rows estimate.plan_rows
    then some plan_rows_limit_exceeded
    else none

abbrev is_given : {A : Type 0} → Option A → Bool
is_given none = false
is_given (some a) = true

module _ {V : Type 0} (env : Collaborators V) (context : QueryContext) where
  -- `_event`
  unfoldable pub event : Report V → QueryAuditEvent
  event r = record {
    event_id = env.event_id;
    occurred_at = env.started_at;
    tenant_id = context.tenant_id;
    user_id = context.user_id;
    job_id = context.job_id;
    data_source_id = context.data_source_id;
    trace_id = context.trace_id;
    status = r.status;
    reason_code = r.reason_code;
    query_fingerprint = r.query_fingerprint;
    referenced_tables = r.referenced_tables;
    planner_invoked = r.planner_invoked;
    executor_invoked = r.executor_invoked;
    estimated_total_cost = elim r.estimate [ none ↦ none | some e ↦ some e.total_cost ];
    estimated_plan_rows = elim r.estimate [ none ↦ none | some e ↦ some e.plan_rows ];
    returned_rows = elim r.result [ none ↦ 0 | some x ↦ x.returned_row_count ];
    returned_columns = elim r.result [ none ↦ 0 | some x ↦ length x.columns ];
    serialized_bytes = elim r.result [ none ↦ 0 | some x ↦ x.serialized_bytes ];
    result_truncated = elim r.result [ none ↦ false | some x ↦ x.truncated ];
    duration_ms = (env.finished_ns - env.started_ns) / 1000000;
  }

  -- `self._record(event)` and then the `return` or the `raise`, after the calls that were made. A
  -- sink that raises replaces both.
  unfoldable pub record_and :
      Report V
      → List Call
      → (QueryAuditEvent → Result Raised (SafeQueryOutcome V))
      → Result Raised (SafeQueryOutcome V) × List Call
  unfolding event
  record_and r calls result =
      let e = event r in
      (if env.audit_sink e then result e else err (safety audit_failed), calls ++ recorded e ∷ [])

  module _ (p : QueryPolicy) where
    abbrev failure_report : GuardedQuery → Code → Bool → Bool → Option QueryCostEstimate → Report V
    failure_report q code planner executor estimate = record {
      status = QueryAuditStatus.failed;
      reason_code = code;
      query_fingerprint = q.query_fingerprint;
      referenced_tables = q.referenced_tables;
      planner_invoked = planner;
      executor_invoked = executor;
      estimate = estimate;
      result = none;
    }

    abbrev approval_report : GuardedQuery → Code → QueryCostEstimate → Report V
    approval_report q reason estimate =
        record (failure_report q reason true false (some estimate)) {
          status = QueryAuditStatus.approval_required;
        }

    abbrev success_report :
        GuardedQuery → Option QueryCostEstimate → QueryExecutionResult V → Report V
    success_report q estimate result =
        record (failure_report q query_executed (is_given estimate) true estimate) {
          status = QueryAuditStatus.succeeded;
          result = some result;
        }

    -- The second `try` with its handlers, and the return, after the executor has answered.
    abbrev pub after_execute :
        GuardedQuery
        → Option QueryCostEstimate
        → List Call
        → Result Raised (QueryExecutionResult V)
        → Result Raised (SafeQueryOutcome V) × List Call
    after_execute q estimate made (ok result) =
        record_and (success_report q estimate result) made
          (λ e. ok (record { result = result; audit = e }))
    after_execute q estimate made (err (safety error)) =
        record_and (failure_report q (error_code error) (is_given estimate) true estimate) made
          (λ e. err (safety error))
    after_execute q estimate made (err unexpected) =
        record_and (failure_report q query_execution_failed (is_given estimate) true estimate) made
          (λ e. err (safety execution_failed))

    unfoldable pub run_query :
        GuardedQuery
        → Option QueryCostEstimate
        → List Call
        → Result Raised (SafeQueryOutcome V) × List Call
    unfolding record_and
    run_query q estimate calls =
        after_execute q estimate (calls ++ executed q ∷ []) (env.executor q p)

    -- `if approval_reason is not None`
    abbrev pub after_approval :
        GuardedQuery
        → QueryCostEstimate
        → Option Code
        → Result Raised (SafeQueryOutcome V) × List Call
    after_approval q estimate none = run_query q (some estimate) (estimated q ∷ [])
    after_approval q estimate (some reason) =
        record_and (approval_report q reason estimate) (estimated q ∷ [])
          (λ e. err (safety (approval_required reason estimate.total_cost estimate.plan_rows)))

    abbrev pub after_estimate :
        GuardedQuery
        → Result Raised QueryCostEstimate
        → Result Raised (SafeQueryOutcome V) × List Call
    after_estimate q (ok estimate) = after_approval q estimate (approval_reason estimate p)
    after_estimate q (err (safety error)) =
        record_and (failure_report q (error_code error) true false none) (estimated q ∷ [])
          (λ e. err (safety error))
    after_estimate q (err unexpected) =
        record_and (failure_report q query_execution_failed true false none) (estimated q ∷ [])
          (λ e. err (safety execution_failed))

    -- `if self._cost_estimator is not None`
    abbrev pub with_estimator :
        GuardedQuery
        → Option (GuardedQuery → Result Raised QueryCostEstimate)
        → Result Raised (SafeQueryOutcome V) × List Call
    with_estimator q none = run_query q none []
    with_estimator q (some estimator) = after_estimate q (estimator q)

    module _ (u : Unicode) (g : SqlGlot) (sha256_hex : Text → Text) where
      abbrev rejection_report : Text → Code → Report V
      rejection_report sql reason = record {
        status = QueryAuditStatus.rejected;
        reason_code = reason;
        query_fingerprint = fingerprint_query u g sha256_hex sql;
        referenced_tables = [];
        planner_invoked = false;
        executor_invoked = false;
        estimate = none;
        result = none;
      }

      -- `except SQLPolicyViolationError` catches that error alone.
      abbrev pub after_guard :
          Text → Result Raised GuardedQuery → Result Raised (SafeQueryOutcome V) × List Call
      after_guard sql (ok q) = with_estimator q env.cost_estimator
      after_guard sql (err (safety (policy_violation reason))) =
          record_and (rejection_report sql reason) [] (λ e. err (safety (policy_violation reason)))
      after_guard sql (err other) = (err other, [])

      unfoldable pub execute_fixed : Text → Result Raised (SafeQueryOutcome V) × List Call
      unfolding inspect run_query record_and approval_reason
      execute_fixed sql = after_guard sql (inspect u g sha256_hex sql p)
