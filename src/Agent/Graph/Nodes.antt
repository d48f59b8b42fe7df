-- ===== src/Agent/Graph/Nodes.antt =====
-- `AgentActions`, `AgentNodes` and the conditional edges of `build_agent_graph`.
use enterprise_data_copilot.Prelude.{
  ℕ, ◌+◌, Bool, List, [], Option, none, some, codes, take, ltb, if◌then◌else◌,
}
use enterprise_data_copilot.Prelude.Result.{Result, ok, err}
use enterprise_data_copilot.Codes.{Code, approval_rejected}
use enterprise_data_copilot.Agent.State.{
  AgentState, Update, Intent, knowledge, sql, hybrid, SqlRisk, safe, approval, blocked, repair,
  ApprovalDecision, approved, rejected, no_update, get_or, error_of, attempts_of,
}
use enterprise_data_copilot.Agent.Failures.{Failure, value_error}
use enterprise_data_copilot.Agent.Steps.Record.{
  Node, classify, retrieve_metrics, select_schema, generate_sql, guard_sql, request_approval,
  execute_sql, verify, compose, StepStatus, approval_request, AgentStepRecord,
}
use enterprise_data_copilot.Agent.Steps.Timed.{
  Stop, interrupted, raised, Observers, Logged, step_record, send, timed_step,
}

pub record AgentActions (V : Type 0) : Type 0 where
  pub classify : AgentState V → Result Failure (Update V)
  pub retrieve_metrics : AgentState V → Result Failure (Update V)
  pub select_schema : AgentState V → Result Failure (Update V)
  pub generate_sql : AgentState V → Result Failure (Update V)
  pub guard_sql : AgentState V → Result Failure (Update V)
  pub execute_sql : AgentState V → Result Failure (Update V)
  pub verify : AgentState V → Result Failure (Update V)
  pub compose : AgentState V → Result Failure (Update V)

-- The payload of a resume: a dict with one of the two decisions, or anything else.
pub data Payload : Type 0 where
  decision : ApprovalDecision → Payload
  malformed : Payload

module _ {V : Type 0} (actions : AgentActions V) (o : Observers V) where
  -- What follows `interrupt(...)`: the first time it stops the run, and on a resume it returns the
  -- payload.
  abbrev pub decide : Option Payload → Result Stop (Update V)
  decide none = err interrupted
  decide (some malformed) = err (raised (value_error (codes "VALUEERROR")))
  decide (some (decision rejected)) = ok (record no_update {
    approval_decision = some rejected;
    error_code = some (some approval_rejected);
  })
  decide (some (decision approved)) =
      ok (record no_update { approval_decision = some approved; error_code = some none })

  -- `pause`, the operation of `request_approval`.
  unfoldable pub pause : Option Payload → AgentState V → List AgentStepRecord → Logged (Update V)
  pause payload s log = elim (o.ensure_pending log s) [
    | some failure ↦ (err (raised failure), log)
    | none ↦
        send o log
          (step_record o log request_approval s StepStatus.waiting
            (approval_request s.values.sql_fingerprint (take 5 (get_or [] s.values.risk_reasons)))
            none)
          (λ log'. (decide payload, log')) (λ failure log'. (err (raised failure), log'))
  ]

  abbrev pub as_stop : Result Failure (Update V) → Result Stop (Update V)
  as_stop (ok update) = ok update
  as_stop (err failure) = err (raised failure)

  abbrev act :
      (AgentState V → Result Failure (Update V))
      → AgentState V
      → List AgentStepRecord
      → Logged (Update V)
  act action s log = (as_stop (action s), log)

  -- The operation of each node; the payload is there on a resume.
  abbrev pub operation :
      Option Payload → Node → AgentState V → List AgentStepRecord → Logged (Update V)
  operation payload classify = act actions.classify
  operation payload retrieve_metrics = act actions.retrieve_metrics
  operation payload select_schema = act actions.select_schema
  operation payload generate_sql = act actions.generate_sql
  operation payload guard_sql = act actions.guard_sql
  operation payload request_approval = pause payload
  operation payload execute_sql = act actions.execute_sql
  operation payload verify = act actions.verify
  operation payload compose = act actions.compose

  unfoldable pub run_node :
      Option Payload → Node → AgentState V → List AgentStepRecord → Logged (Update V)
  unfolding timed_step pause
  run_node payload n s log = timed_step o n s (operation payload n) log

-- Where an edge leads: to a node, to `END`, or nowhere, since the state lacks the key that the edge
-- reads (`KeyError`).
pub data Edge : Type 0 where
  to : Node → Edge
  end : Edge
  missing_key : Edge

abbrev pub after_classify : Option SqlRisk → Edge
after_classify (some blocked) = end
after_classify other = to retrieve_metrics

abbrev pub after_retrieve : Option Intent → Edge
after_retrieve none = missing_key
after_retrieve (some knowledge) = to compose
after_retrieve (some sql) = to select_schema
after_retrieve (some hybrid) = to select_schema

abbrev pub after_guard : Bool → Option SqlRisk → Edge
after_guard may none = missing_key
after_guard may (some safe) = to execute_sql
after_guard may (some approval) = to request_approval
after_guard may (some blocked) = end
after_guard may (some repair) = if may then to generate_sql else end

abbrev pub after_approval : Option ApprovalDecision → Edge
after_approval none = missing_key
after_approval (some approved) = to execute_sql
after_approval (some rejected) = end

abbrev pub after_verify : Bool → Option Code → Edge
after_verify may none = to compose
after_verify may (some code) = if may then to generate_sql else to compose

module _ (max_repairs : ℕ) where
  -- `state.get("attempts", 0) < max_repairs + 1`
  abbrev pub may_repair : {V : Type 0} → AgentState V → Bool
  may_repair s = ltb (attempts_of s) (max_repairs + 1)

  -- The edge that is followed from a node in the state that it leaves behind.
  unfoldable pub edge : {V : Type 0} → Node → AgentState V → Edge
  edge classify s = after_classify s.values.sql_risk
  edge retrieve_metrics s = after_retrieve s.values.intent
  edge select_schema s = to generate_sql
  edge generate_sql s = to guard_sql
  edge guard_sql s = after_guard (may_repair s) s.values.sql_risk
  edge request_approval s = after_approval s.values.approval_decision
  edge execute_sql s = to verify
  edge verify s = after_verify (may_repair s) (error_of s)
  edge compose s = end
