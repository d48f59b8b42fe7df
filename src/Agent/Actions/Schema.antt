-- ===== src/Agent/Actions/Schema.antt =====
-- `select_schema` and `generate_sql`.
use enterprise_data_copilot.Prelude.{
  ℕ, zero, suc, ◌+◌, Text, Bool, true, false, not, ◌||◌, List, Option, none, some, codes,
  is_none_left, is_subset, if◌then◌else◌,
}
use enterprise_data_copilot.Prelude.Strings.{is_empty, text_eq}
use enterprise_data_copilot.Prelude.Unicode.{Unicode}
use enterprise_data_copilot.Prelude.Result.{Result, ok, err, ◌>>=◌, ◌>>◌, raise_if}
use enterprise_data_copilot.Codes.{Code}
use enterprise_data_copilot.Llm.Errors.{invalid_response}
use enterprise_data_copilot.Llm.Client.Generate.{GenerateError, classified}
use enterprise_data_copilot.QuerySafety.Policy.Model.{
  QueryPolicy, Limits, ValueError, is_valid_policy, from_snapshot, restrict_to_tables,
}
use enterprise_data_copilot.Nl2sql.Errors.{Nl2sqlError, schema_selection}
use enterprise_data_copilot.Nl2sql.Tables.{normalize_reported_tables, catalog_names}
use enterprise_data_copilot.Nl2sql.Answer.{
  Messages, selection_messages, generation_messages, repair_messages,
}
use enterprise_data_copilot.Agent.State.{AgentState, Update, no_update, error_of, attempts_of}
use enterprise_data_copilot.Agent.Failures.{Failure, nl2sql, value_error}
use enterprise_data_copilot.Agent.Actions.Backend.{
  ConfidentTableSelection, SelectionPrompt, with_confidence, with_correction, Backend, required,
  validation_error, of_nl2sql, of_generate,
}

-- A failed validation, and `ValueError` raised by the method itself.
abbrev pub or_failure : {A : Type 0} → Failure → Result ValueError A → Result Failure A
or_failure failure (ok a) = ok a
or_failure failure (err e) = err failure

-- `except LLMInvalidResponseError`
abbrev pub of_selection : {A : Type 0} → Failure → Result GenerateError A → Result Failure A
of_selection broken (err (classified invalid_response)) = err (nl2sql schema_selection)
of_selection broken result = of_generate broken result

-- The second `try`: the names without their schema, some of them and all of them allowed.
unfoldable pub selected_tables : QueryPolicy → List Text → Result Nl2sqlError (List Text)
selected_tables policy reported = do
  selected ← normalize_reported_tables policy.allowed_schema reported
  raise_if (is_none_left selected || not (is_subset selected policy.allowed_tables))
      schema_selection
  ok selected

-- `QueryPolicy.model_validate`
abbrev pub revalidated : Unicode → QueryPolicy → Result Failure QueryPolicy
revalidated u policy = if is_valid_policy u policy then ok policy else err validation_error

-- The text of `state.get("sql")` and the code, where both are true.
abbrev pub repairable : Option Text → Option Code → Option (Text × Code)
repairable (some text) (some code) = if is_empty text then none else some (text, code)
repairable text code = none

abbrev pub prompts_of : Messages → Option (Text × Code) → Messages
prompts_of base none = base
prompts_of base (some (text, code)) = repair_messages base text code

module _ {V E : Type 0} (u : Unicode) (b : Backend V E) where
  -- The arguments of `from_snapshot`, with the defaults of the others.
  abbrev pub limits : Limits
  limits = record {
    max_rows = 100;
    max_columns = 50;
    max_result_bytes = 1000000;
    max_total_cost = b.max_total_cost;
    max_plan_rows = b.max_plan_rows;
  }

  abbrev pub after_selection :
      Bool
      → Result Failure (List Text × ℕ)
      → ConfidentTableSelection
      → Result Nl2sqlError (List Text)
      → Result Failure (List Text × ℕ)
  after_selection last again output (ok selected) = ok (selected, output.confidence)
  after_selection last again output (err e) = if last then err (nl2sql e) else again

  abbrev is_last : ℕ → Bool
  is_last zero = true
  is_last (suc left) = false

  -- `for attempt in range(2)`, on the attempts that are left.
  unfoldable pub select_from :
      QueryPolicy → List Text → ℕ → SelectionPrompt → Result Failure (List Text × ℕ)
  unfolding selected_tables
  select_from policy names zero prompt = err (nl2sql schema_selection)
  select_from policy names (suc left) prompt = do
    let again = select_from policy names left (with_correction prompt)
    result ← of_selection b.broken (b.select prompt names)
    after_selection (is_last left) again result.output (selected_tables policy result.output.tables)

  unfoldable pub select_schema : AgentState V → Result Failure (Update V)
  unfolding select_from
  select_schema s = do
    snapshot ← b.introspect
    policy ← or_failure validation_error (from_snapshot u snapshot limits)
    names ← of_nl2sql (catalog_names policy.allowed_schema policy.allowed_tables)
    let prompt = with_confidence (selection_messages s.identity.question snapshot)
    (selected, confidence) ← select_from policy names 2 prompt
    restricted ← or_failure (value_error (codes "VALUEERROR")) (restrict_to_tables policy selected)
    ok (record no_update {
      candidate_tables = some selected;
      selection_confidence = some confidence;
      schema_snapshot = some snapshot;
      query_policy = some restricted;
    })

  unfoldable pub generate_sql : AgentState V → Result Failure (Update V)
  generate_sql s = do
    snapshot ← required s.values.schema_snapshot
    stored ← required s.values.query_policy
    policy ← revalidated u stored
    tables ← required s.values.candidate_tables
    let base = generation_messages s.identity.question snapshot tables policy
    let prompts = prompts_of base (repairable s.values.sql_text (error_of s))
    result ← of_generate b.broken (b.draft (attempts_of s) prompts)
    reported ← of_nl2sql (normalize_reported_tables policy.allowed_schema result.output.tables_used)
    of_nl2sql (raise_if (not (is_subset reported tables)) schema_selection)
    ok (record no_update {
      sql_text = some result.output.sql;
      analysis_plan = some result.output.analysis_plan;
      attempts = some (attempts_of s + 1);
      error_code = some none;
    })
