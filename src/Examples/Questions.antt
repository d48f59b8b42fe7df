-- ===== src/Examples/Questions.antt =====
-- One question, answered after one repair.
use enterprise_data_copilot.Prelude.{
  ℕ, zero, suc, ◌≡◌, ◌≢◌, ◌↔◌, refl, Text, true, false, [], ◌∷◌, none, some, codes,
}
use enterprise_data_copilot.Prelude.Strings.{normalize_space}
use enterprise_data_copilot.Prelude.Result.{Result, ok, err}
use enterprise_data_copilot.Llm.Client.Generate.{StructuredLlmResult}
use enterprise_data_copilot.QuerySafety.Errors.{Raised, safety, timeout}
use enterprise_data_copilot.QuerySafety.Policy.Model.{
  restrict_columns, restricted, restrict_to_tables,
}
use enterprise_data_copilot.QuerySafety.Result.{SafeQueryOutcome, QueryAuditStatus}
use enterprise_data_copilot.Codes.{query_executed}
use enterprise_data_copilot.Nl2sql.Models.{AnalysisPlan, Nl2sqlResult}
use enterprise_data_copilot.Nl2sql.Question.{
  Patterns, inspect_question, IsClean, inspect_question-IsClean,
}
use enterprise_data_copilot.Nl2sql.Tables.{
  table_of, tables_of, normalize_reported_tables, catalog_names,
}
use enterprise_data_copilot.Nl2sql.Isolation.{AreTables, normalize_reported_tables-AreTables}
use enterprise_data_copilot.Nl2sql.Answer.{
  Assistants, unfinished, add_usage, validate_selection, validate_draft_tables, draft_from, answer,
}
use enterprise_data_copilot.Nl2sql.Repairs.{IsAnswered, answer-IsAnswered}
use enterprise_data_copilot.Nl2sql.Fuel.{answer-finishes}
use enterprise_data_copilot.Examples.Dialect.{orders, customers, sample_policy}
use enterprise_data_copilot.Examples.Policies.{catalog}
use enterprise_data_copilot.Examples.Executor.{two_of_three}

abbrev pub no_patterns : Patterns
no_patterns = record {
  write_sql = λ s. false;
  write_request = λ s. false;
  override = λ s. false;
  override_request = λ s. false;
  secrets = λ s. false;
  secret_request = λ s. false;
  other_tenant = λ s. false;
  sensitive_data = λ s. false;
  code = λ s. false;
  code_request = λ s. false;
}

abbrev proposed : {A : Type 0} → A → StructuredLlmResult A
proposed a = record {
  output = a;
  provider = codes "provider";
  model = codes "model";
  request_id = none;
  attempts = 1;
  usage = record { input_tokens = some 10; output_tokens = none; total_tokens = none };
}

abbrev plan : AnalysisPlan
plan = record {
  summary = codes "All orders.";
  steps = codes "Read." ∷ [];
  expected_columns = codes "n" ∷ [];
}

abbrev executed_orders : SafeQueryOutcome ℕ
executed_orders = record {
  result = two_of_three;
  audit = record {
    event_id = 1;
    occurred_at = 0;
    tenant_id = 1;
    user_id = 2;
    job_id = 3;
    data_source_id = 4;
    trace_id = codes "0123456789abcdef";
    status = QueryAuditStatus.succeeded;
    reason_code = query_executed;
    query_fingerprint = codes "sha256:SELECT * FROM orders";
    referenced_tables = codes "northwind.orders" ∷ [];
    planner_invoked = true;
    executor_invoked = true;
    estimated_total_cost = some 100;
    estimated_plan_rows = some 10;
    returned_rows = 2;
    returned_columns = 1;
    serialized_bytes = 5;
    result_truncated = true;
    duration_ms = 3;
  };
}

-- The first query takes too long.
abbrev attempt : ℕ → Result Raised (SafeQueryOutcome ℕ)
attempt zero = err (safety timeout)
attempt (suc n) = ok executed_orders

abbrev sample_assistants : Assistants ℕ
sample_assistants = record {
  patterns = no_patterns;
  select = λ messages names. ok (proposed (record { tables = codes "northwind.orders" ∷ [] }));
  draft = λ n messages.
      ok (proposed (record { analysis_plan = plan; tables_used = orders ∷ []; sql = orders }));
  execute_generated = λ n sql policy. attempt n;
}

abbrev repaired_once : Nl2sqlResult ℕ
repaired_once = record {
  analysis_plan = plan;
  selected_tables = orders ∷ [];
  sql = orders;
  repair_count = 1;
  model_calls = 3;
  provider = codes "provider";
  model = codes "model";
  usage = record { input_tokens = some 30; output_tokens = none; total_tokens = none };
  outcome = executed_orders;
}

abbrev question : Text
question = codes " Which orders  are late? "

question_answered : answer sample_assistants 2 6 question catalog sample_policy ≡ ok repaired_once
unfolding answer draft_from inspect_question normalize_space catalog_names validate_selection
    validate_draft_tables normalize_reported_tables tables_of table_of restrict_to_tables restricted
    restrict_columns add_usage
question_answered = refl

answer-IsAnswered_example : IsAnswered sample_assistants 2 6 catalog sample_policy repaired_once
answer-IsAnswered_example =
    answer-IsAnswered sample_assistants 2 6 question catalog sample_policy repaired_once
      question_answered

answer-finishes_example :
    answer sample_assistants 2 6 question catalog sample_policy ≢ err unfinished
answer-finishes_example = answer-finishes sample_assistants 2 6 question catalog sample_policy

inspect_question-IsClean_example :
    (inspect_question no_patterns question ≡ ok (codes "Which orders are late?")) ↔ (
      (normalize_space question ≡ codes "Which orders are late?")
      × IsClean no_patterns (codes "Which orders are late?"))
inspect_question-IsClean_example =
    inspect_question-IsClean no_patterns question (codes "Which orders are late?")

normalize_reported_tables-AreTables_example :
    (normalize_reported_tables (codes "northwind") (codes "northwind.orders" ∷ customers ∷ [])
      ≡ ok (orders ∷ customers ∷ []))
    ↔ AreTables
        (codes "northwind")
        (codes "northwind.orders" ∷ customers ∷ [])
        (orders ∷ customers ∷ [])
normalize_reported_tables-AreTables_example =
    normalize_reported_tables-AreTables (codes "northwind")
      (codes "northwind.orders" ∷ customers ∷ []) (orders ∷ customers ∷ []) refl
