-- ===== src/Agent/Graph/Progress.antt =====
-- What becomes of a run that waits.
use enterprise_data_copilot.Prelude.{
  ℕ, ◌+◌, ◌*◌, ◌≤◌, ◌≡◌, refl, ap, ◌∙◌, take, [], List, Option, none, some, arith,
}
use enterprise_data_copilot.Prelude.Result.{ok, err}
use enterprise_data_copilot.Codes.{approval_rejected}
use enterprise_data_copilot.Agent.State.{
  AgentState, Update, ApprovalDecision, get_or, approved, rejected, no_update, apply_update,
  attempts_of,
}
use enterprise_data_copilot.Agent.Steps.Record.{
  Node, StepStatus, summary, approval_request, state_summary, classify, request_approval,
  execute_sql, AgentStepRecord,
}
use enterprise_data_copilot.Agent.Steps.Timed.{
  Observers, Logged, step_record, finish_step, timed_step,
}
use enterprise_data_copilot.Agent.Graph.Nodes.{
  AgentActions, Payload, decision, decide, pause, run_node, edge,
}
use enterprise_data_copilot.Agent.Graph.Machine.{
  at, ended, waiting, after_node, run_at, invoke, Reach,
}
use enterprise_data_copilot.Agent.Graph.Attempts.{Counts}
use enterprise_data_copilot.Agent.Graph.Approval.{Inspects, waits_for_approval}
use enterprise_data_copilot.Agent.Graph.Termination.{IsStopped, invoke-stops, drafts_bounded}

-- The sinks accept every record and every request.
pub record IsQuiet {V : Type 0} (o : Observers V) : Type 0 where
  pub recorded : (log : List AgentStepRecord) (r : AgentStepRecord) → o.record_step log r ≡ none
  pub pending : (log : List AgentStepRecord) (s : AgentState V) → o.ensure_pending log s ≡ none

abbrev pub approved_state : {V : Type 0} → AgentState V → AgentState V
approved_state s =
    apply_update s (record no_update { approval_decision = some approved; error_code = some none })

abbrev pub rejected_state : {V : Type 0} → AgentState V → AgentState V
rejected_state s = apply_update s (record no_update {
  approval_decision = some rejected;
  error_code = some (some approval_rejected);
})

module _ {V : Type 0} (actions : AgentActions V) (o : Observers V) (max_repairs : ℕ)
    (quiet : IsQuiet o) where
  finish_step-quiet :
      (n : Node) (s : AgentState V) (m : Logged (Update V)) (w : Update V)
      → m.0 ≡ ok w
      → (finish_step o n s m).0 ≡ ok w
  finish_step-quiet n s (ok v, log) w h =
      let r =
        step_record o log n s StepStatus.succeeded
          (summary (state_summary o.sha256_hex (apply_update s v))) none in
      ground (arith, quiet.recorded log r)
  finish_step-quiet n s (err stop, log) w h = cc

  pause-quiet :
      (payload : Option Payload) (s : AgentState V) (log : List AgentStepRecord)
      → (pause actions o payload s log).0 ≡ decide actions o payload
  unfolding pause
  pause-quiet payload s log =
      let r =
        step_record o log request_approval s StepStatus.waiting
          (approval_request s.values.sql_fingerprint (take 5 (get_or [] s.values.risk_reasons)))
          none in
      ground (arith, quiet.pending log s, quiet.recorded log r)

  -- A resume follows the edge of its decision.
  request-decided :
      (d : ApprovalDecision) (s : AgentState V) (log : List AgentStepRecord) (w : Update V)
      → decide actions o (some (decision d)) ≡ ok w
      → (run_at actions o max_repairs (some (decision d)) request_approval s log).0
        ≡ after_node actions o max_repairs request_approval s (ok w)
  unfolding run_at run_node timed_step
  request-decided d s log w h = ap (after_node actions o max_repairs request_approval s) (
      finish_step-quiet request_approval s (pause actions o (some (decision d)) s log) w
        (pause-quiet (some (decision d)) s log ∙ h))

  -- Where the sinks accept every record and the actions keep count of the drafts, a run that waits
  -- goes on as soon as it is resumed: an approval leads it to the execution of its query, from
  -- where it stops again within `5 * max_repairs + 8` nodes, and a rejection ends it with its code.
  pub waiting-proceeds :
      (laws : Counts actions) (s t : AgentState V) (n : Node) (log : List AgentStepRecord)
      (fuel : ℕ)
      → attempts_of s ≡ 0
      → 5 * max_repairs + 8 ≤ fuel
      → Reach actions o max_repairs (at classify s) (waiting n t)
      → ((run_at actions o max_repairs (some (decision approved)) n t log).0
          ≡ at execute_sql (approved_state t))
        × IsStopped (invoke actions o max_repairs fuel (at execute_sql (approved_state t)) log).0
        × ((run_at actions o max_repairs (some (decision rejected)) n t log).0
            ≡ ended (rejected_state t))
  unfolding edge
  waiting-proceeds laws s t n log fuel fresh enough r =
      let always : Inspects actions (λ s. Unit) = record {
        guarded = λ s u h risk. tt;
        stable = λ s d e i. tt;
      } in
      let (same, _) = waits_for_approval (λ s. Unit) max_repairs actions o always s t n r in
      let few = drafts_bounded max_repairs actions o laws s (waiting n t) fresh r in
      (
        rw same (request-decided approved t log _ refl),
        invoke-stops max_repairs actions o laws fuel execute_sql (approved_state t) log
            (omega arith) (omega arith),
        rw same (request-decided rejected t log _ refl),
      )
