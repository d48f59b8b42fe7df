-- ===== src/Agent/Actions/Nodes.antt =====
-- The other nodes, and the record of all.
use enterprise_data_copilot.Prelude.{
  Text, Bool, true, false, not, ◌&&◌, List, [], ◌∷◌, map, Option, none, some, codes, any, is_subset,
  is_none_left, if◌then◌else◌,
}
use enterprise_data_copilot.Prelude.Strings.{is_infix, text_eq}
use enterprise_data_copilot.Prelude.Dict.{Dict}
use enterprise_data_copilot.Prelude.Unicode.{Unicode}
use enterprise_data_copilot.Prelude.Result.{Result, ok, err, ◌>>=◌}
use enterprise_data_copilot.Codes.{Code, rag_insufficient_evidence, result_columns_mismatch}
use enterprise_data_copilot.QuerySafety.SqlGlot.{SqlGlot}
use enterprise_data_copilot.Nl2sql.Errors.{Nl2sqlError, question_rejected}
use enterprise_data_copilot.Nl2sql.Question.{inspect_question}
use enterprise_data_copilot.Nl2sql.Models.{AnalysisPlan}
use enterprise_data_copilot.Agent.State.{
  AgentState, Update, Intent, knowledge, hybrid, Evidence, ChartSpec, blocked, no_update, get_or,
  error_of,
}
use enterprise_data_copilot.Agent.Failures.{Failure, nl2sql}
use enterprise_data_copilot.Agent.Charting.{Cell, build_chart_spec}
use enterprise_data_copilot.Agent.Answering.{Values, is_present, describe_sql_result}
use enterprise_data_copilot.Agent.Graph.Nodes.{AgentActions}
use enterprise_data_copilot.Agent.Actions.Backend.{Backend, validation_error}
use enterprise_data_copilot.Agent.Actions.Schema.{select_schema, generate_sql}
use enterprise_data_copilot.Agent.Actions.Guarding.{guard_sql, execute_sql}

abbrev pub knowledge_markers : List Text
knowledge_markers = codes "定义" ∷ codes "口径" ∷ codes "什么是" ∷ codes "how is" ∷ codes "definition" ∷ []

abbrev pub is_knowledge : Option Intent → Bool
is_knowledge (some knowledge) = true
is_knowledge other = false

abbrev pub intent_of : Unicode → Text → Intent
intent_of u question =
    if any (λ marker. is_infix marker (u.lower question)) knowledge_markers
    then knowledge
    else hybrid

-- `classify`, on the answer of the question guard, which raises only rejections.
abbrev pub after_question :
    {V : Type 0} → Unicode → Result Nl2sqlError Text → Result Failure (Update V)
after_question u (err (question_rejected reason)) = ok (record no_update {
  sql_risk = some blocked;
  risk_reasons = some (reason ∷ []);
  error_code = some (some reason);
})
after_question u (err e) = err (nl2sql e)
after_question u (ok question) =
    ok (record no_update { intent = some (intent_of u question); error_code = some none })

abbrev pub retrieval_error : Option Intent → Bool → Option Code
retrieval_error intent should_answer =
    if is_knowledge intent && not should_answer then some rag_insufficient_evidence else none

-- `state.get("analysis_plan", {}).get("expected_columns", [])`
abbrev pub expected_columns_of : Option AnalysisPlan → List Text
expected_columns_of none = []
expected_columns_of (some plan) = plan.expected_columns

unfoldable pub verify : {V : Type 0} → AgentState V → Result Failure (Update V)
verify s =
    let expected = expected_columns_of s.values.analysis_plan in
    if not (is_none_left expected) && not (is_subset expected (get_or [] s.values.columns))
    then ok (record no_update { error_code = some (some result_columns_mismatch) })
    else ok (record no_update { error_code = some none })

-- `evidence[0]["content"] if evidence else ""`
abbrev pub first_content : List Evidence → Text
first_content [] = []
first_content (e ∷ es) = e.content

abbrev pub insufficient_answer : Text
insufficient_answer = codes "The metric knowledge base does not contain enough evidence to answer."

module _ {V D : Type 0} (u : Unicode) (values : Values V D) (cell : V → Cell) where
  abbrev pub answer_of : AgentState V → Text
  answer_of s =
      if is_knowledge s.values.intent
      then first_content (get_or [] s.values.metric_context)
      else describe_sql_result u values (get_or [] s.values.columns) (get_or [] s.values.rows)
          (get_or false s.values.result_truncated)

  -- The row as charting.py reads it.
  abbrev pub cells : Dict Text V → Dict Text Cell
  cells row = map (λ e. (e.0, cell e.1)) row

  abbrev pub chart_of_state : AgentState V → Option ChartSpec
  chart_of_state s =
      build_chart_spec u (λ text. is_present u values (values.finite_decimal text))
        (get_or [] s.values.columns) (map cells (get_or [] s.values.rows))

  abbrev pub with_chart : Text → Option ChartSpec → Result Failure (Update V)
  with_chart text none = err validation_error
  with_chart text (some chart) =
      ok (record no_update { answer = some text; chart_spec = some chart })

  abbrev pub after_error : AgentState V → Option Code → Result Failure (Update V)
  after_error s (some rag_insufficient_evidence) =
      ok (record no_update { answer = some insufficient_answer; error_code = some none })
  after_error s (some code) = ok (record no_update { answer = some [] })
  after_error s none = with_chart (answer_of s) (chart_of_state s)

  unfoldable pub compose : AgentState V → Result Failure (Update V)
  compose s = after_error s (error_of s)

module _ {V D : Type 0} (u : Unicode) (g : SqlGlot) (sha256_hex : Text → Text) (values : Values V D)
    (cell : V → Cell) (b : Backend V g.Expression) where
  unfoldable pub classify : AgentState V → Result Failure (Update V)
  classify s = after_question u (inspect_question b.patterns s.identity.question)

  unfoldable pub retrieve_metrics : AgentState V → Result Failure (Update V)
  retrieve_metrics s = do
    result ← b.retrieve s.identity.tenant_id s.identity.question
    ok (record no_update {
      metric_context = some result.hits;
      citations = some result.citations;
      error_code = some (retrieval_error s.values.intent result.should_answer);
    })

  -- `NorthwindAgentActions`
  abbrev pub northwind_actions : AgentActions V
  northwind_actions = record {
    classify = classify;
    retrieve_metrics = retrieve_metrics;
    select_schema = select_schema u b;
    generate_sql = generate_sql u b;
    guard_sql = guard_sql u g sha256_hex b;
    execute_sql = execute_sql u g sha256_hex b;
    verify = verify;
    compose = compose u values cell;
  }
