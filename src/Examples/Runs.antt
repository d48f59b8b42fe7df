-- ===== src/Examples/Runs.antt =====
-- Runs of the workflow on the sample actions.
use enterprise_data_copilot.Prelude.{ℕ, ◌+◌, ◌≤◌, ◌≡◌, refl, arith, inr, [], ◌∷◌, none, some, codes}
use enterprise_data_copilot.Agent.State.{
  AgentState, no_update, sql, safe, approval, approved, rejected, attempts_of, apply_update,
}
use enterprise_data_copilot.Agent.Steps.Record.{
  classify, retrieve_metrics, select_schema, generate_sql, guard_sql, request_approval, execute_sql,
  state_summary,
}
use enterprise_data_copilot.Agent.Steps.Redaction.{LookAlike, state_summary-redacts}
use enterprise_data_copilot.Agent.Steps.Timed.{timed_step}
use enterprise_data_copilot.Agent.Graph.Nodes.{decision, run_node, pause, edge}
use enterprise_data_copilot.Agent.Graph.Machine.{
  at, ended, waiting, run_at, invoke, Reach, here, next, advance, resume,
}
use enterprise_data_copilot.Agent.Graph.Approval.{IsCleared, execution-IsCleared}
use enterprise_data_copilot.Agent.Graph.Termination.{
  IsStopped, state_of, start-stops, drafts_bounded,
}
use enterprise_data_copilot.Agent.Graph.Progress.{
  IsQuiet, approved_state, rejected_state, waiting-proceeds,
}
use enterprise_data_copilot.Examples.Dialect.{same_text, orders, orders_query}
use enterprise_data_copilot.Examples.Workflow.{
  fresh, sample_actions, sample_observers, HasOrdersQuery, sample-Counts, sample-Inspects,
}

-- The state at the approval, and the state after it.
abbrev asked : AgentState ℕ
asked = apply_update fresh (record no_update {
  intent = some sql;
  sql_risk = some approval;
  metric_context = some [];
  candidate_tables = some (orders ∷ []);
  sql_text = some orders;
  attempts = some 1;
  guarded_query = some orders_query;
})

abbrev permitted : AgentState ℕ
permitted =
    apply_update asked
      (record no_update { approval_decision = some approved; error_code = some none })

abbrev after_select : AgentState ℕ
after_select = apply_update fresh (record no_update {
  intent = some sql;
  sql_risk = some safe;
  metric_context = some [];
  candidate_tables = some (orders ∷ []);
})

pub waiting_is_reached :
    Reach sample_actions sample_observers 2 (at classify fresh) (waiting request_approval asked)
unfolding run_at run_node timed_step pause edge
waiting_is_reached =
    next
      (next
        (next
          (next
            (next (next here (advance classify fresh [] refl)) (advance retrieve_metrics _ [] refl))
            (advance select_schema _ [] refl))
          (advance generate_sql after_select [] refl))
        (advance guard_sql _ [] refl))
      (advance request_approval asked [] refl)

permitted_is_reached :
    Reach sample_actions sample_observers 2 (at classify fresh) (at execute_sql permitted)
unfolding run_at run_node timed_step pause edge
permitted_is_reached =
    next waiting_is_reached (resume request_approval asked [] (decision approved) refl)

execution-IsCleared_example : IsCleared permitted × HasOrdersQuery permitted
execution-IsCleared_example =
    execution-IsCleared HasOrdersQuery 2 sample_actions sample_observers sample-Inspects fresh
      permitted permitted_is_reached

drafts_bounded_example : attempts_of (state_of (at execute_sql permitted)) ≤ 2 + 1
drafts_bounded_example =
    drafts_bounded 2 sample_actions sample_observers sample-Counts fresh (at execute_sql permitted)
      refl permitted_is_reached

sample-IsQuiet : IsQuiet sample_observers
sample-IsQuiet = record { recorded = λ log r. refl; pending = λ log s. refl }

waiting-proceeds_example :
    ((run_at sample_actions sample_observers 2
        (some (decision approved))
        request_approval
        asked
        []).0
      ≡ at execute_sql (approved_state asked))
    × IsStopped
        (invoke sample_actions sample_observers 2 18 (at execute_sql (approved_state asked)) []).0
    × ((run_at sample_actions sample_observers 2
          (some (decision rejected))
          request_approval
          asked
          []).0
        ≡ ended (rejected_state asked))
waiting-proceeds_example =
    waiting-proceeds sample_actions sample_observers 2 sample-IsQuiet sample-Counts fresh asked
      request_approval [] 18 refl (omega arith) waiting_is_reached

start-stops_example :
    IsStopped (invoke sample_actions sample_observers 2 19 (at classify fresh) []).0
start-stops_example =
    start-stops 2 sample_actions sample_observers sample-Counts fresh [] 19 refl (omega arith)

-- Another question and another answer.
abbrev other : AgentState ℕ
other = record asked {
  identity = record asked.identity { question = codes "Who ordered?" };
  values = record asked.values { answer = some (codes "Nobody.") };
}

asked-LookAlike : LookAlike same_text asked other
asked-LookAlike = record {
  intent = refl;
  tables = refl;
  context = refl;
  attempts = refl;
  risk = refl;
  reasons = refl;
  rows = refl;
  columns = refl;
  citations = refl;
  error = refl;
  sql = inr (λ h. cc, λ h. cc, refl);
}

state_summary-redacts_example : state_summary same_text asked ≡ state_summary same_text other
state_summary-redacts_example = state_summary-redacts same_text asked other asked-LookAlike
