-- ===== src/Agent/Workflow/Runs.antt =====
-- `AgentWorkflowService` over the runs that the checkpointer keeps, each under its run id.
use enterprise_data_copilot.Prelude.{
  ℕ, ◌+◌, ◌*◌, Text, Bool, true, false, ◌&&◌, List, [], Option, none, some, if◌then◌else◌, ◌==◌,
}
use enterprise_data_copilot.Prelude.Strings.{is_empty, strip, text_eq}
use enterprise_data_copilot.Prelude.Dict.{Dict, lookup, insert}
use enterprise_data_copilot.Prelude.Result.{Result, ok, err}
use enterprise_data_copilot.Codes.{Code, approval_rejected, agent_workflow_failed}
use enterprise_data_copilot.Llm.Errors.{llm_code}
use enterprise_data_copilot.Nl2sql.Errors.{nl2sql_code}
use enterprise_data_copilot.Agent.State.{
  AgentState, Update, Identity, ApprovalDecision, SqlRisk, blocked, no_update, get_or, error_of,
}
use enterprise_data_copilot.Agent.Failures.{Failure, llm, nl2sql}
use enterprise_data_copilot.Agent.Steps.Record.{classify, AgentStepRecord}
use enterprise_data_copilot.Agent.Steps.Timed.{Observers}
use enterprise_data_copilot.Agent.Graph.Nodes.{AgentActions, decision}
use enterprise_data_copilot.Agent.Graph.Machine.{Run, at, ended, waiting, crashed, run_at, invoke}

pub data RunStatus : Type 0 where
  planning waiting_approval completed rejected failed : RunStatus

pub record StartRun : Type 0 where
  pub run_id : Text
  pub tenant_id : Text
  pub user_id : Text
  pub role : Text
  pub data_source_id : Text
  pub trace_id : Text
  pub question : Text

-- The keys that the first state has besides the identity.
abbrev pub initial_values : {V : Type 0} → Update V
initial_values = record no_update {
  attempts = some 0;
  risk_reasons = some [];
  metric_context = some [];
  candidate_tables = some [];
  citations = some [];
  rows = some [];
  columns = some [];
  result_truncated = some false;
  error_code = some none;
}

unfoldable pub initial_state : {V : Type 0} → StartRun → AgentState V
initial_state request = record {
  identity = record {
    run_id = request.run_id;
    tenant_id = request.tenant_id;
    user_id = request.user_id;
    role = request.role;
    data_source_id = request.data_source_id;
    trace_id = request.trace_id;
    question = strip request.question;
  };
  values = initial_values;
}

-- The value of the interrupt in `request_approval`.
pub record Interrupt : Type 0 where
  pub run_id : Text
  pub sql_fingerprint : Option Text
  pub reason_codes : List Code

pub record WorkflowResult (V : Type 0) : Type 0 where
  pub run_id : Text
  pub status : RunStatus
  pub state : AgentState V
  pub interrupt : Option Interrupt

-- `WorkflowConflictError`, `WorkflowIdentityError`, the `KeyError` of an unknown run, and what a
-- resumed run raises itself.
pub data WorkflowError : Type 0 where
  conflict identity_mismatch unknown_run : WorkflowError
  raised : Failure → WorkflowError

-- `_snapshot_error_code`, by the name of the class.
abbrev pub snapshot_error_code : Failure → Code
snapshot_error_code (llm e) = llm_code e
snapshot_error_code (nl2sql e) = nl2sql_code e
snapshot_error_code error = agent_workflow_failed

abbrev pub with_error : {V : Type 0} → AgentState V → Code → AgentState V
with_error s code = record s { values = record s.values { error_code = some (some code) } }

-- `_status` of a state without an interrupt, by its error code, its risk and its answer.
abbrev pub status_of : Option Code → Option SqlRisk → Option Text → RunStatus
status_of (some approval_rejected) risk answer = rejected
status_of error (some blocked) answer = rejected
status_of (some error) risk answer = failed
status_of none risk none = planning
status_of none risk (some answer) = if is_empty answer then planning else completed

unfoldable pub status : {V : Type 0} → AgentState V → Bool → RunStatus
status s true = waiting_approval
status s false = status_of (error_of s) s.values.sql_risk s.values.answer

abbrev pub interrupt_of : {V : Type 0} → AgentState V → Interrupt
interrupt_of s = record {
  run_id = s.identity.run_id;
  sql_fingerprint = s.values.sql_fingerprint;
  reason_codes = get_or [] s.values.risk_reasons;
}

abbrev pub workflow_result :
    {V : Type 0} → Text → AgentState V → Bool → Option Interrupt → WorkflowResult V
workflow_result run_id s interrupted interrupt = record {
  run_id = run_id;
  status = status s interrupted;
  state = s;
  interrupt = interrupt;
}

-- `_snapshot_result`; between two calls no run stands at a node.
unfoldable pub snapshot_result : {V : Type 0} → Text → Run V → WorkflowResult V
unfolding status
snapshot_result run_id (at n s) = workflow_result run_id s false none
snapshot_result run_id (ended s) = workflow_result run_id s false none
snapshot_result run_id (waiting n s) = workflow_result run_id s true (some (interrupt_of s))
snapshot_result run_id (crashed n s failure) =
    workflow_result run_id (with_error s (snapshot_error_code failure)) false none

-- `identity != requested`, negated.
unfoldable pub is_same_request : Identity → StartRun → Bool
is_same_request i request =
    i.tenant_id == request.tenant_id
    && i.user_id == request.user_id
    && i.data_source_id == request.data_source_id
    && i.question == strip request.question

abbrev pub state_of_run : {V : Type 0} → Run V → AgentState V
state_of_run (at n s) = s
state_of_run (ended s) = s
state_of_run (waiting n s) = s
state_of_run (crashed n s failure) = s

-- A service call: what it returns or raises, the runs that it leaves, and the step records.
abbrev pub Served : Type 0 → Type 0
Served V = Result WorkflowError (WorkflowResult V) × Dict Text (Run V) × List AgentStepRecord

module _ {V : Type 0} (actions : AgentActions V) (o : Observers V) (max_repairs : ℕ) where
  -- The rounds that every `invoke` gets.
  abbrev pub enough : ℕ
  enough = 5 * max_repairs + 9

  unfoldable pub inspect_run : Text → Dict Text (Run V) → Result WorkflowError (WorkflowResult V)
  unfolding snapshot_result
  inspect_run run_id runs = elim (lookup run_id runs) [
    | none ↦ err unknown_run
    | some r ↦ ok (snapshot_result run_id r)
  ]

  -- A crash of a new run is answered by its snapshot, as every other end is.
  abbrev pub started : Text → Dict Text (Run V) → Run V × List AgentStepRecord → Served V
  started run_id runs (r, log) = (ok (snapshot_result run_id r), insert run_id r runs, log)

  abbrev pub start_known : StartRun → Dict Text (Run V) → List AgentStepRecord → Run V → Served V
  start_known request runs log r = (
    if is_same_request (state_of_run r).identity request
        then ok (snapshot_result request.run_id r)
        else err conflict,
    runs,
    log,
  )

  unfoldable pub start_run : StartRun → Dict Text (Run V) → List AgentStepRecord → Served V
  unfolding invoke initial_state snapshot_result is_same_request
  start_run request runs log = elim (lookup request.run_id runs) [
    | some r ↦ start_known request runs log r
    | none ↦
        started request.run_id runs
          (invoke actions o max_repairs enough (at classify (initial_state request)) log)
  ]

  -- A crash of a resumed run is raised.
  abbrev pub resumed : Text → Run V → Result WorkflowError (WorkflowResult V)
  resumed run_id (crashed n s failure) = err (raised failure)
  resumed run_id r = ok (snapshot_result run_id r)

  abbrev pub continued : Text → Dict Text (Run V) → Run V × List AgentStepRecord → Served V
  continued run_id runs (r, log) = (resumed run_id r, insert run_id r runs, log)

  abbrev pub is_own_run : Text → Text → AgentState V → Bool
  is_own_run run_id tenant_id s = s.identity.run_id == run_id && s.identity.tenant_id == tenant_id

  abbrev pub resume_waiting :
      Text
      → Text
      → ApprovalDecision
      → Dict Text (Run V)
      → List AgentStepRecord
      → Option (Run V)
      → Served V
  resume_waiting run_id tenant_id verdict runs log (some (waiting n s)) =
      let (r, log') = run_at actions o max_repairs (some (decision verdict)) n s log in
      let next = continued run_id runs (invoke actions o max_repairs enough r log') in
      if is_own_run run_id tenant_id s then next else (err identity_mismatch, runs, log)
  resume_waiting run_id tenant_id verdict runs log other = (err conflict, runs, log)

  unfoldable pub resume_run :
      Text → Text → ApprovalDecision → Dict Text (Run V) → List AgentStepRecord → Served V
  unfolding invoke run_at snapshot_result
  resume_run run_id tenant_id verdict runs log =
      resume_waiting run_id tenant_id verdict runs log (lookup run_id runs)
