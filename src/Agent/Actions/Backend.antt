-- ===== src/Agent/Actions/Backend.antt =====
-- The collaborators of `NorthwindAgentActions`, and how their exceptions leave a node.
use enterprise_data_copilot.Prelude.{ℕ, Text, Bool, List, Option, none, some, codes}
use enterprise_data_copilot.Prelude.Result.{Result, ok, err}
use enterprise_data_copilot.Llm.Client.Generate.{
  StructuredLlmResult, GenerateError, classified, unclassified, assertion,
}
use enterprise_data_copilot.Metadata.Snapshot.{SchemaSnapshot}
use enterprise_data_copilot.QuerySafety.Errors.{Raised, safety, unexpected}
use enterprise_data_copilot.QuerySafety.Policy.Model.{QueryPolicy}
use enterprise_data_copilot.QuerySafety.Guard.Inspect.{GuardedQuery}
use enterprise_data_copilot.QuerySafety.Result.{QueryCostEstimate, QueryExecutionResult}
use enterprise_data_copilot.Nl2sql.Errors.{Nl2sqlError}
use enterprise_data_copilot.Nl2sql.Question.{Patterns}
use enterprise_data_copilot.Nl2sql.Models.{Nl2sqlDraft}
use enterprise_data_copilot.Nl2sql.Answer.{Messages}
use enterprise_data_copilot.Agent.State.{Citation, Evidence}
use enterprise_data_copilot.Agent.Failures.{Failure, llm, nl2sql, query, value_error, other}

-- `ConfidentTableSelection`; a confidence is a whole number of units of 2 ^ -1074.
pub record ConfidentTableSelection : Type 0 where
  pub tables : List Text
  pub confidence : ℕ

-- The parts of a `RetrievalResult` that are read, a hit cut to its evidence.
pub record Retrieved : Type 0 where
  pub hits : List Evidence
  pub citations : List Citation
  pub should_answer : Bool

-- The messages of a selection: those of prompts.py with the sentence on the confidence, or those of
-- the attempt before with the request for a correction.
pub data SelectionPrompt : Type 0 where
  with_confidence : Messages → SelectionPrompt
  with_correction : SelectionPrompt → SelectionPrompt

-- What the collaborators answer, over the fixed data source, and the settings. The number of drafts
-- made so far tells the calls of one run apart. `retrieve` stands for `UUID(tenant_id)` and the
-- retrieval, `select` and `draft` for `generate` with `_run`, and `parse_one` for that function of
-- the SQL library. `broken` is how an exception that the model does not name leaves a node.
pub record Backend (V E : Type 0) : Type 0 where
  pub patterns : Patterns
  pub retrieve : Text → Text → Result Failure Retrieved
  pub introspect : Result Failure SchemaSnapshot
  pub select :
      SelectionPrompt
      → List Text
      → Result GenerateError (StructuredLlmResult ConfidentTableSelection)
  pub draft : ℕ → Messages → Result GenerateError (StructuredLlmResult Nl2sqlDraft)
  pub parse_one : Text → Result Failure E
  pub estimate : ℕ → GuardedQuery → Result Raised QueryCostEstimate
  pub execute : ℕ → GuardedQuery → QueryPolicy → Result Raised (QueryExecutionResult V)
  pub broken : Failure
  pub max_total_cost : ℕ
  pub max_plan_rows : ℕ
  pub minimum_confidence : ℕ
  pub controlled_columns : List Text

-- The `KeyError` of `state[key]`.
abbrev pub required : {A : Type 0} → Option A → Result Failure A
required none = err (other (codes "KEYERROR"))
required (some a) = ok a

abbrev pub validation_error : Failure
validation_error = value_error (codes "VALIDATIONERROR")

abbrev pub of_nl2sql : {A : Type 0} → Result Nl2sqlError A → Result Failure A
of_nl2sql (ok a) = ok a
of_nl2sql (err e) = err (nl2sql e)

abbrev pub of_generate : {A : Type 0} → Failure → Result GenerateError A → Result Failure A
of_generate broken (ok a) = ok a
of_generate broken (err (classified e)) = err (llm e)
of_generate broken (err unclassified) = err broken
of_generate broken (err assertion) = err (other (codes "ASSERTIONERROR"))

-- An exception of the query components; `others` is what an unexpected one is.
abbrev pub of_raised : {A : Type 0} → Failure → Result Raised A → Result Failure A
of_raised others (ok a) = ok a
of_raised others (err (safety e)) = err (query e)
of_raised others (err unexpected) = err others
