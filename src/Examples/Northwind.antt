-- ===== src/Examples/Northwind.antt =====
-- The real actions on the sample dialect, with a model that reads the orders.
use enterprise_data_copilot.Prelude.{
  ℕ, ◌-◌, ◌≡◌, refl, Text, true, false, [], ◌∷◌, none, some, codes, ltb,
}
use enterprise_data_copilot.Prelude.Strings.{normalize_space, strip}
use enterprise_data_copilot.Prelude.Result.{Result, ok, err}
use enterprise_data_copilot.Llm.Client.Generate.{StructuredLlmResult}
use enterprise_data_copilot.Nl2sql.Question.{inspect_question}
use enterprise_data_copilot.Nl2sql.Tables.{table_of, normalize_reported_tables, catalog_names}
use enterprise_data_copilot.QuerySafety.Policy.Model.{
  columns_by_table, snapshot_policy, from_snapshot, restrict_columns, restricted,
  restrict_to_tables,
}
use enterprise_data_copilot.QuerySafety.Guard.Checks.{
  only_statement, check_functions, check_query_shape, check_tables, qualify_columns,
}
use enterprise_data_copilot.QuerySafety.Guard.Inspect.{validated, accept, guarded_query, inspect}
use enterprise_data_copilot.Agent.State.{AgentState, Update, apply_update, no_update}
use enterprise_data_copilot.Agent.Failures.{Failure, other}
use enterprise_data_copilot.Agent.Charting.{Cell, number}
use enterprise_data_copilot.Agent.Answering.{Values}
use enterprise_data_copilot.Agent.Steps.Record.{
  classify, retrieve_metrics, select_schema, generate_sql, guard_sql, execute_sql,
}
use enterprise_data_copilot.Agent.Steps.Timed.{timed_step}
use enterprise_data_copilot.Agent.Graph.Nodes.{AgentActions, run_node, edge}
use enterprise_data_copilot.Agent.Graph.Machine.{at, run_at, Reach, here, next, advance}
use enterprise_data_copilot.Agent.Actions.Backend.{Backend}
use enterprise_data_copilot.Agent.Actions.Schema
use enterprise_data_copilot.Agent.Actions.Schema.{selected_tables, select_from}
use enterprise_data_copilot.Agent.Actions.Guarding
use enterprise_data_copilot.Agent.Actions.Guarding.{
  controlled_references, risk_reasons, full_confidence,
}
use enterprise_data_copilot.Agent.Actions.Nodes
use enterprise_data_copilot.Agent.Actions.Nodes.{northwind_actions}
use enterprise_data_copilot.Examples.Dialect.{ascii, dialect, same_text, orders}
use enterprise_data_copilot.Examples.Policies.{catalog}
use enterprise_data_copilot.Examples.Questions.{no_patterns}
use enterprise_data_copilot.Examples.Workflow.{fresh, sample_observers}

-- Values are numbers, and so are decimals.
abbrev pub numbers : Values ℕ ℕ
numbers = record {
  str = λ n. [];
  is_bool_or_none = λ n. false;
  finite_decimal = λ text. some 0;
  less = ltb;
  zero_decimal = 0;
  subtract = λ m n. m - n;
  is_zero = λ n. false;
  absolute = λ n. [];
  percent = λ m n. [];
}

abbrev pub no_cell : ℕ → Cell
no_cell n = number

abbrev reply : {A : Type 0} → A → StructuredLlmResult A
reply output = record {
  output = output;
  provider = codes "provider";
  model = codes "model";
  request_id = none;
  attempts = 1;
  usage = record { input_tokens = none; output_tokens = none; total_tokens = none };
}

abbrev pub backend : Backend ℕ Text
backend = record {
  patterns = no_patterns;
  retrieve = λ tenant question. ok (record { hits = []; citations = []; should_answer = true });
  introspect = ok catalog;
  select = λ prompt names. ok (reply (record { tables = orders ∷ []; confidence = 1 }));
  draft = λ attempt messages. ok (
      reply (record {
        analysis_plan = record { summary = []; steps = []; expected_columns = [] };
        tables_used = orders ∷ [];
        sql = orders;
      }));
  parse_one = λ text. ok text;
  estimate = λ attempt query. ok (record { total_cost = 1; plan_rows = 1 });
  execute = λ attempt query policy. ok (record {
    columns = [];
    rows = [];
    returned_row_count = 0;
    serialized_bytes = 0;
    truncated = false;
  });
  broken = other (codes "EXCEPTION");
  max_total_cost = 1000;
  max_plan_rows = 50;
  minimum_confidence = 1;
  controlled_columns = codes "orders.secret" ∷ [];
}

abbrev pub real_actions : AgentActions ℕ
real_actions = northwind_actions ascii dialect same_text numbers no_cell backend

-- The state behind an action that returned.
abbrev after : AgentState ℕ → Result Failure (Update ℕ) → AgentState ℕ
after s (ok w) = apply_update s w
after s (err f) = s

abbrev classified : AgentState ℕ
classified = after fresh (real_actions.classify fresh)

abbrev pub retrieved : AgentState ℕ
retrieved = after classified (real_actions.retrieve_metrics classified)

abbrev selected : AgentState ℕ
selected = after retrieved (real_actions.select_schema retrieved)

abbrev drafted : AgentState ℕ
drafted = after selected (real_actions.generate_sql selected)

abbrev pub checked : AgentState ℕ
checked = after drafted (real_actions.guard_sql drafted)

pub checked_is_reached :
    Reach real_actions sample_observers 2 (at classify fresh) (at execute_sql checked)
unfolding run_at run_node timed_step edge Nodes.classify inspect_question Nodes.retrieve_metrics
    Schema.select_schema from_snapshot snapshot_policy columns_by_table select_from selected_tables
    normalize_reported_tables restrict_to_tables restricted restrict_columns Schema.generate_sql
    Guarding.guard_sql inspect accept check_functions check_query_shape check_tables qualify_columns
    only_statement validated guarded_query controlled_references risk_reasons normalize_space strip
    catalog_names table_of
checked_is_reached =
    next
      (next
        (next
          (next (next here (advance classify fresh [] refl))
            (advance retrieve_metrics classified [] refl))
          (advance select_schema retrieved [] refl))
        (advance generate_sql selected [] refl))
      (advance guard_sql drafted [] refl)

abbrev made : Result Failure (Update ℕ) → Update ℕ
made (ok w) = w
made (err f) = no_update

abbrev pub selection : Update ℕ
selection = made (real_actions.select_schema retrieved)

pub selection_made : Schema.select_schema ascii backend retrieved ≡ ok selection
unfolding Nodes.classify inspect_question Nodes.retrieve_metrics Schema.select_schema from_snapshot
    snapshot_policy columns_by_table select_from selected_tables normalize_reported_tables
    restrict_to_tables restricted restrict_columns normalize_space strip catalog_names table_of
selection_made = refl
