-- ===== src/Agent/Graph/Inversion.antt =====
-- What a node did, read off from how it ended.
use enterprise_data_copilot.Prelude.{◌≡◌, refl, List, Option, none, some, arith}
use enterprise_data_copilot.Prelude.Result.{Result, ok, err}
use enterprise_data_copilot.Agent.State.{
  AgentState, Update, ApprovalDecision, approved, rejected, no_update,
}
use enterprise_data_copilot.Agent.Failures.{Failure}
use enterprise_data_copilot.Agent.Steps.Record.{Node, request_approval, AgentStepRecord}
use enterprise_data_copilot.Agent.Steps.Timed.{
  interrupted, raised, Observers, Logged, fail_step, finish_step, timed_step,
}
use enterprise_data_copilot.Agent.Graph.Nodes.{
  AgentActions, Payload, decision, malformed, pause, as_stop, operation, run_node,
}

module _ {V : Type 0} (actions : AgentActions V) (o : Observers V) where
  -- A step returns an update, or is interrupted, only if its operation is.
  finish_step-ok :
      (n : Node) (s : AgentState V) (m : Logged (Update V)) (u : Update V)
      → (finish_step o n s m).0 ≡ ok u
      → m.0 ≡ ok u
  unfolding fail_step
  finish_step-ok n s (ok v, log) u h = ground arith
  finish_step-ok n s (err interrupted, log) u h = cc
  finish_step-ok n s (err (raised f), log) u h = ground arith

  finish_step-interrupted :
      (n : Node) (s : AgentState V) (m : Logged (Update V))
      → (finish_step o n s m).0 ≡ err interrupted
      → m.0 ≡ err interrupted
  unfolding fail_step
  finish_step-interrupted n s (ok v, log) h = ground arith
  finish_step-interrupted n s (err interrupted, log) h = refl
  finish_step-interrupted n s (err (raised f), log) h = ground arith

  pub run_node-ok :
      (payload : Option Payload) (n : Node) (s : AgentState V) (log : List AgentStepRecord)
      (u : Update V)
      → (run_node actions o payload n s log).0 ≡ ok u
      → (operation actions o payload n s log).0 ≡ ok u
  unfolding run_node timed_step
  run_node-ok payload n s log u h = finish_step-ok n s (operation actions o payload n s log) u h

  -- Only the request for an approval can wait.
  pub run_node-interrupted :
      (payload : Option Payload) (n : Node) (s : AgentState V) (log : List AgentStepRecord)
      → (run_node actions o payload n s log).0 ≡ err interrupted
      → n ≡ request_approval
  unfolding run_node timed_step
  run_node-interrupted payload request_approval s log h = refl
  run_node-interrupted payload n s log h =
      ground (arith, finish_step-interrupted n s (operation actions o payload n s log) h)

  -- The update of an answered request: the decision, and the error code of a rejection.
  pub pause-ok :
      (payload : Option Payload) (s : AgentState V) (log : List AgentStepRecord) (u : Update V)
      → (pause actions o payload s log).0 ≡ ok u
      → (d : ApprovalDecision) × (payload ≡ some (decision d))
        × (u ≡ record no_update {
          approval_decision = u.approval_decision;
          error_code = u.error_code;
        })
        × (u.approval_decision ≡ some d)
  unfolding pause
  pause-ok none s log u h = ground arith
  pause-ok (some malformed) s log u h = ground arith
  pause-ok (some (decision approved)) s log u h = (approved, refl, ground arith, ground arith)
  pause-ok (some (decision rejected)) s log u h = (rejected, refl, ground arith, ground arith)

  pub as_stop-ok :
      (r : Result Failure (Update V)) (u : Update V) → as_stop actions o r ≡ ok u → r ≡ ok u
  as_stop-ok (ok v) u h = ground arith
  as_stop-ok (err f) u h = cc
