-- ===== src/Agent/Steps/Record.antt =====
-- The step records, and the summaries of a state that they carry.
use enterprise_data_copilot.Prelude.{
  ℕ, Text, Bool, List, [], ◌++◌, Option, none, some, codes, length, take, if◌then◌else◌,
}
use enterprise_data_copilot.Prelude.Strings.{is_empty}
use enterprise_data_copilot.Codes.{Code}
use enterprise_data_copilot.Agent.State.{AgentState, Intent, SqlRisk, get_or, error_of, attempts_of}
use enterprise_data_copilot.Agent.Failures.{Category}

pub data Node : Type 0 where
  classify retrieve_metrics select_schema generate_sql guard_sql : Node
  request_approval execute_sql verify compose : Node

-- The dict that `state_summary` returns; a key that it drops is `none`.
pub record StateSummary : Type 0 where
  pub intent : Option Intent
  pub candidate_table_count : ℕ
  pub metric_context_count : ℕ
  pub attempts : ℕ
  pub sql_risk : Option SqlRisk
  pub risk_reasons : List Code
  pub row_count : ℕ
  pub column_count : ℕ
  pub citation_count : ℕ
  pub error_code : Option Code
  pub sql_fingerprint : Option Text

pub data StepStatus : Type 0 where
  succeeded failed waiting : StepStatus

-- What a record carries of the output: a summary of the new state, the class of an error, or the
-- request for an approval.
pub data Output : Type 0 where
  summary : StateSummary → Output
  error_class : Category × Bool → Output
  approval_request : Option Text → List Code → Output

pub record AgentStepRecord : Type 0 where
  pub run_id : Text
  pub step_name : Node
  pub status : StepStatus
  pub attempt : ℕ
  pub input_summary : StateSummary
  pub output_summary : Output
  pub duration_ms : ℕ
  pub error_code : Option Text

module _ (sha256_hex : Text → Text) where
  -- `sql = state.get("sql")` and `if sql:`
  abbrev pub sql_fingerprint_of : Option Text → Option Text
  sql_fingerprint_of none = none
  sql_fingerprint_of (some sql) =
      if is_empty sql then none else some (codes "sha256:" ++ sha256_hex sql)

  unfoldable pub state_summary : {V : Type 0} → AgentState V → StateSummary
  state_summary s = record {
    intent = s.values.intent;
    candidate_table_count = length (get_or [] s.values.candidate_tables);
    metric_context_count = length (get_or [] s.values.metric_context);
    attempts = attempts_of s;
    sql_risk = s.values.sql_risk;
    risk_reasons = take 5 (get_or [] s.values.risk_reasons);
    row_count = length (get_or [] s.values.rows);
    column_count = length (get_or [] s.values.columns);
    citation_count = length (get_or [] s.values.citations);
    error_code = error_of s;
    sql_fingerprint = sql_fingerprint_of s.values.sql_text;
  }
