-- ===== src/Nl2sql/Answer.antt =====
-- `NL2SQLService.answer` of agent-service/app/nl2sql/service.py. What the collaborators answer
-- during one call is a parameter. The loop runs on fuel; `unfinished` is what it returns without.
use enterprise_data_copilot.Prelude.{
  ℕ, zero, suc, ◌+◌, Text, not, ◌||◌, List, Option, none, some, keep, contains, length, is_subset,
  leb, ltb, nat_beq, if◌then◌else◌,
}
use enterprise_data_copilot.Prelude.Strings.{text_eq}
use enterprise_data_copilot.Prelude.Result.{Result, ok, err, ◌>>=◌, ◌>>◌, raise_if}
use enterprise_data_copilot.Codes.{Code}
use enterprise_data_copilot.Llm.Client.Generate.{LlmTokenUsage, StructuredLlmResult, GenerateError}
use enterprise_data_copilot.Metadata.Snapshot.{SchemaSnapshot}
use enterprise_data_copilot.QuerySafety.Errors.{
  QuerySafetyError, policy_violation, approval_required, error_code, Raised, safety, unexpected,
}
use enterprise_data_copilot.QuerySafety.Policy.Model.{QueryPolicy, restrict_to_tables}
use enterprise_data_copilot.QuerySafety.Policy.Snapshot.{table_names}
use enterprise_data_copilot.QuerySafety.Result.{SafeQueryOutcome}
use enterprise_data_copilot.Nl2sql.Errors.{Nl2sqlError, schema_selection, repair_exhausted}
use enterprise_data_copilot.Nl2sql.Question.{Patterns, inspect_question}
use enterprise_data_copilot.Nl2sql.Models.{TableSelection, Nl2sqlDraft, Nl2sqlResult}
use enterprise_data_copilot.Nl2sql.Tables.{normalize_reported_tables, catalog_names}

-- A call of the functions of prompts.py, whose texts are left out.
pub data Messages : Type 0 where
  selection_messages : Text → SchemaSnapshot → Messages
  generation_messages : Text → SchemaSnapshot → List Text → QueryPolicy → Messages
  repair_messages : Messages → Text → Code → Messages

-- What the patterns of the question guard match, the answers of `generate` to the selection (whose
-- tables are constrained to the given names) and to each draft, and those of `execute_generated`.
pub record Assistants (V : Type 0) : Type 0 where
  pub patterns : Patterns
  pub select : Messages → List Text → Result GenerateError (StructuredLlmResult TableSelection)
  pub draft : ℕ → Messages → Result GenerateError (StructuredLlmResult Nl2sqlDraft)
  pub execute_generated : ℕ → Text → QueryPolicy → Result Raised (SafeQueryOutcome V)

pub data AnswerError : Type 0 where
  nl2sql : Nl2sqlError → AnswerError
  llm : GenerateError → AnswerError
  query : QuerySafetyError → AnswerError
  value_error other unfinished : AnswerError

abbrev pub map_err : {E F A : Type 0} → (E → F) → Result E A → Result F A
map_err f (ok a) = ok a
map_err f (err e) = err (f e)

-- `str(reason_code or error.code)`
abbrev pub safe_error_code : QuerySafetyError → Code
safe_error_code (policy_violation reason) = reason
safe_error_code (approval_required reason cost rows) = reason
safe_error_code error = error_code error

abbrev pub add_tokens : Option ℕ → Option ℕ → Option ℕ
add_tokens none none = none
add_tokens none (some n) = some n
add_tokens (some m) none = some m
add_tokens (some m) (some n) = some (m + n)

unfoldable pub add_usage : LlmTokenUsage → LlmTokenUsage → LlmTokenUsage
add_usage left right = record {
  input_tokens = add_tokens left.input_tokens right.input_tokens;
  output_tokens = add_tokens left.output_tokens right.output_tokens;
  total_tokens = add_tokens left.total_tokens right.total_tokens;
}

-- `known_tables & policy.allowed_tables`
abbrev pub usable_tables : SchemaSnapshot → QueryPolicy → List Text
usable_tables snapshot policy = keep (contains policy.allowed_tables) (table_names snapshot.tables)

unfoldable pub validate_selection :
    ℕ → TableSelection → SchemaSnapshot → QueryPolicy → Result Nl2sqlError (List Text)
validate_selection max_selected_tables selection snapshot policy = do
  tables ← normalize_reported_tables policy.allowed_schema selection.tables
  raise_if
      (not (nat_beq (length tables) (length selection.tables))
        || (ltb max_selected_tables (length tables)
            || not (is_subset tables (usable_tables snapshot policy))))
      schema_selection
  ok tables

unfoldable pub validate_draft_tables :
    Nl2sqlDraft → List Text → Text → Result Nl2sqlError (Unit {0})
validate_draft_tables draft selected_tables allowed_schema = do
  reported_tables ← normalize_reported_tables allowed_schema draft.tables_used
  raise_if (not (is_subset reported_tables selected_tables)) schema_selection

module _ {V : Type 0} (env : Assistants V) (max_repairs : ℕ) where
  -- The `try` with its handlers, on the answer of the query service: `again code` is the rest of
  -- the loop, `result outcome` the return.
  abbrev pub after_execution :
      ℕ
      → (Code → Result AnswerError (Nl2sqlResult V))
      → (SafeQueryOutcome V → Nl2sqlResult V)
      → Result Raised (SafeQueryOutcome V)
      → Result AnswerError (Nl2sqlResult V)
  after_execution repair_count again result (ok outcome) = ok (result outcome)
  after_execution repair_count again result (err (safety (approval_required reason cost rows))) =
      err (query (approval_required reason cost rows))
  after_execution repair_count again result (err (safety error)) =
      if leb max_repairs repair_count
      then err (nl2sql (repair_exhausted (safe_error_code error)))
      else again (safe_error_code error)
  after_execution repair_count again result (err unexpected) = err other

  module _ (selected_tables : List Text) (allowed_schema : Text) (policy : QueryPolicy)
      (base : Messages) where
    abbrev pub result_of :
        StructuredLlmResult Nl2sqlDraft
        → ℕ
        → ℕ
        → LlmTokenUsage
        → SafeQueryOutcome V
        → Nl2sqlResult V
    result_of draft repair_count model_calls usage outcome = record {
      analysis_plan = draft.output.analysis_plan;
      selected_tables = selected_tables;
      sql = draft.output.sql;
      repair_count = repair_count;
      model_calls = model_calls;
      provider = draft.provider;
      model = draft.model;
      usage = usage;
      outcome = outcome;
    }

    -- `while True`
    unfoldable pub draft_from :
        ℕ → ℕ → Messages → ℕ → LlmTokenUsage → Result AnswerError (Nl2sqlResult V)
    draft_from zero repair_count messages model_calls usage = err unfinished
    draft_from (suc fuel) repair_count messages model_calls usage = do
      draft ← map_err llm (env.draft repair_count messages)
      map_err nl2sql (validate_draft_tables draft.output selected_tables allowed_schema)
      after_execution repair_count
          (λ code.
            draft_from fuel (repair_count + 1) (repair_messages base draft.output.sql code)
              (model_calls + draft.attempts) (add_usage usage draft.usage))
          (result_of draft repair_count (model_calls + draft.attempts)
            (add_usage usage draft.usage))
          (env.execute_generated repair_count draft.output.sql policy)

  unfoldable pub answer :
      ℕ → Text → SchemaSnapshot → QueryPolicy → Result AnswerError (Nl2sqlResult V)
  unfolding draft_from
  answer max_selected_tables question snapshot policy = do
    safe_question ← map_err nl2sql (inspect_question env.patterns question)
    names ← map_err nl2sql (catalog_names policy.allowed_schema (usable_tables snapshot policy))
    selection ← map_err llm (env.select (selection_messages safe_question snapshot) names)
    selected ←
        map_err nl2sql (validate_selection max_selected_tables selection.output snapshot policy)
    selected_policy ← map_err (λ e. value_error) (restrict_to_tables policy selected)
    let base = generation_messages safe_question snapshot selected selected_policy
    draft_from selected policy.allowed_schema selected_policy base (max_repairs + 1) 0 base
        selection.attempts selection.usage
