-- ===== src/Agent/State.antt =====
-- agent-service/app/agent/state.py. A key that a `TypedDict` may lack is an `Option`; what the
-- state keeps as `model_dump` of a model, and reads back by `model_validate`, is kept as the model.
use enterprise_data_copilot.Prelude.{ℕ, Text, Bool, List, Option, none, some}
use enterprise_data_copilot.Prelude.Dict.{Dict}
use enterprise_data_copilot.Codes.{Code}
use enterprise_data_copilot.Metadata.Snapshot.{SchemaSnapshot}
use enterprise_data_copilot.QuerySafety.Policy.Model.{QueryPolicy}
use enterprise_data_copilot.Nl2sql.Models.{AnalysisPlan}
use enterprise_data_copilot.QuerySafety.Guard.Inspect.{GuardedQuery}

pub data Intent : Type 0 where
  sql knowledge hybrid : Intent

pub data SqlRisk : Type 0 where
  safe approval blocked repair : SqlRisk

pub data ApprovalDecision : Type 0 where
  approved rejected : ApprovalDecision

-- `Citation` of agent-service/app/retrieval/models.py.
pub record Citation : Type 0 where
  pub document_id : ℕ
  pub document_title : Text
  pub document_version : ℕ
  pub section_key : Text
  pub section_title : Text
  pub source_locator : Text

-- An entry of `metric_context`.
pub record Evidence : Type 0 where
  pub content : Text
  pub citation : Citation

pub data ChartType : Type 0 where
  bar line pie table : ChartType

-- `ChartSpec` of agent-service/app/agent/charting.py.
pub record ChartSpec : Type 0 where
  pub chart_type : ChartType
  pub title : Text
  pub x : Option Text
  pub series : List Text

-- The identity of a run, which the first state sets and no node writes.
pub record Identity : Type 0 where
  pub run_id : Text
  pub tenant_id : Text
  pub user_id : Text
  pub role : Text
  pub data_source_id : Text
  pub trace_id : Text
  pub question : Text

-- The keys that nodes write; the value `None` of `error_code` is `some none`.
pub record Update (V : Type 0) : Type 0 where
  pub intent : Option Intent
  pub candidate_tables : Option (List Text)
  pub selection_confidence : Option ℕ
  pub schema_snapshot : Option SchemaSnapshot
  pub query_policy : Option QueryPolicy
  pub metric_context : Option (List Evidence)
  pub analysis_plan : Option AnalysisPlan
  pub sql_text : Option Text
  pub sql_fingerprint : Option Text
  pub guarded_query : Option GuardedQuery
  pub sql_risk : Option SqlRisk
  pub risk_reasons : Option (List Code)
  pub approval_decision : Option ApprovalDecision
  pub rows : Option (List (Dict Text V))
  pub columns : Option (List Text)
  pub result_truncated : Option Bool
  pub attempts : Option ℕ
  pub answer : Option Text
  pub citations : Option (List Citation)
  pub chart_spec : Option ChartSpec
  pub error_code : Option (Option Code)

pub record AgentState (V : Type 0) : Type 0 where
  pub identity : Identity
  pub values : Update V

-- `AgentState()`
abbrev pub no_update : {V : Type 0} → Update V
no_update = record {
  intent = none;
  candidate_tables = none;
  selection_confidence = none;
  schema_snapshot = none;
  query_policy = none;
  metric_context = none;
  analysis_plan = none;
  sql_text = none;
  sql_fingerprint = none;
  guarded_query = none;
  sql_risk = none;
  risk_reasons = none;
  approval_decision = none;
  rows = none;
  columns = none;
  result_truncated = none;
  attempts = none;
  answer = none;
  citations = none;
  chart_spec = none;
  error_code = none;
}

abbrev pub or_else {ℓ} : {A : Type ℓ} → Option A → Option A → Option A
or_else none old = old
or_else (some new) old = some new

-- `state.update(update)`
abbrev pub merge : {V : Type 0} → Update V → Update V → Update V
merge old new = record {
  intent = or_else new.intent old.intent;
  candidate_tables = or_else new.candidate_tables old.candidate_tables;
  selection_confidence = or_else new.selection_confidence old.selection_confidence;
  schema_snapshot = or_else new.schema_snapshot old.schema_snapshot;
  query_policy = or_else new.query_policy old.query_policy;
  metric_context = or_else new.metric_context old.metric_context;
  analysis_plan = or_else new.analysis_plan old.analysis_plan;
  sql_text = or_else new.sql_text old.sql_text;
  sql_fingerprint = or_else new.sql_fingerprint old.sql_fingerprint;
  guarded_query = or_else new.guarded_query old.guarded_query;
  sql_risk = or_else new.sql_risk old.sql_risk;
  risk_reasons = or_else new.risk_reasons old.risk_reasons;
  approval_decision = or_else new.approval_decision old.approval_decision;
  rows = or_else new.rows old.rows;
  columns = or_else new.columns old.columns;
  result_truncated = or_else new.result_truncated old.result_truncated;
  attempts = or_else new.attempts old.attempts;
  answer = or_else new.answer old.answer;
  citations = or_else new.citations old.citations;
  chart_spec = or_else new.chart_spec old.chart_spec;
  error_code = or_else new.error_code old.error_code;
}

abbrev pub apply_update : {V : Type 0} → AgentState V → Update V → AgentState V
apply_update s u = record s { values = merge s.values u }

-- `state.get(key, default)`
abbrev pub get_or {ℓ} : {A : Type ℓ} → A → Option A → A
get_or default none = default
get_or default (some a) = a

-- `state.get("error_code")`
abbrev pub error_of : {V : Type 0} → AgentState V → Option Code
error_of s = get_or none s.values.error_code

-- `state.get("attempts", 0)`
abbrev pub attempts_of : {V : Type 0} → AgentState V → ℕ
attempts_of s = get_or 0 s.values.attempts
