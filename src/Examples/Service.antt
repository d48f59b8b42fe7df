-- ===== src/Examples/Service.antt =====
-- The service on one query.
use enterprise_data_copilot.Prelude.{ℕ, ◌≡◌, ◌≢◌, sym, ◌∙◌, All, true, some, codes}
use enterprise_data_copilot.Prelude.Result.{ok, err}
use enterprise_data_copilot.QuerySafety.Errors.{unexpected}
use enterprise_data_copilot.QuerySafety.Guard.Inspect.{inspect}
use enterprise_data_copilot.QuerySafety.Result.{QueryContext}
use enterprise_data_copilot.QuerySafety.Service.Run.{Collaborators, execute_fixed}
use enterprise_data_copilot.QuerySafety.Service.Audit.{IsAudited, execute_fixed-IsAudited}
use enterprise_data_copilot.QuerySafety.Service.Clearance.{IsLegal, execute_fixed-IsLegal}
use enterprise_data_copilot.Examples.Dialect.{ascii, dialect, same_text, orders, sample_policy}
use enterprise_data_copilot.Examples.Executor.{two_of_three}
use enterprise_data_copilot.Examples.Guard.{orders_inspected}

abbrev sample_collaborators : Collaborators ℕ
sample_collaborators = record {
  cost_estimator = some (λ q. ok (record { total_cost = 100; plan_rows = 10 }));
  executor = λ q p. ok two_of_three;
  audit_sink = λ e. true;
  event_id = 1;
  started_at = 0;
  started_ns = 0;
  finished_ns = 3000000;
}

abbrev sample_context : QueryContext
sample_context = record {
  tenant_id = 1;
  user_id = 2;
  job_id = 3;
  data_source_id = 4;
  trace_id = codes "0123456789abcdef";
}

orders_expected : inspect ascii dialect same_text orders sample_policy ≢ err unexpected
orders_expected h = let same : ok _ ≡ err unexpected = sym orders_inspected ∙ h in cc

execute_fixed-IsAudited_example :
    IsAudited sample_collaborators sample_context (
      execute_fixed sample_collaborators sample_context sample_policy ascii dialect same_text
        orders)
execute_fixed-IsAudited_example =
    execute_fixed-IsAudited sample_collaborators sample_context sample_policy ascii dialect
      same_text orders orders_expected

execute_fixed-IsLegal_example :
    All
      (IsLegal sample_collaborators sample_context sample_policy
        (inspect ascii dialect same_text orders sample_policy))
      (execute_fixed sample_collaborators sample_context sample_policy ascii dialect same_text
        orders).1
execute_fixed-IsLegal_example =
    execute_fixed-IsLegal sample_collaborators sample_context sample_policy ascii dialect same_text
      orders
