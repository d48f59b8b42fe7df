-- ===== src/Nl2sql/Models.antt =====
-- agent-service/app/nl2sql/models.py.
use enterprise_data_copilot.Prelude.{ℕ, Text, List}
use enterprise_data_copilot.Llm.Client.Generate.{LlmTokenUsage}
use enterprise_data_copilot.QuerySafety.Result.{SafeQueryOutcome}

pub record TableSelection : Type 0 where
  pub tables : List Text

pub record AnalysisPlan : Type 0 where
  pub summary : Text
  pub steps : List Text
  pub expected_columns : List Text

-- `NL2SQLDraft`.
pub record Nl2sqlDraft : Type 0 where
  pub analysis_plan : AnalysisPlan
  pub tables_used : List Text
  pub sql : Text

-- `NL2SQLResult`.
pub record Nl2sqlResult (V : Type 0) : Type 0 where
  pub analysis_plan : AnalysisPlan
  pub selected_tables : List Text
  pub sql : Text
  pub repair_count : ℕ
  pub model_calls : ℕ
  pub provider : Text
  pub model : Text
  pub usage : LlmTokenUsage
  pub outcome : SafeQueryOutcome V
