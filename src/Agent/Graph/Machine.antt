-- ===== src/Agent/Graph/Machine.antt =====
-- The compiled graph as the workflow library runs it: a node at a time, its update merged into the
-- state, then the edge; an interrupt keeps the state, and a resume runs the node again.
use enterprise_data_copilot.Prelude.{ℕ, zero, suc, ◌≡◌, List, Option, none, some, codes}
use enterprise_data_copilot.Prelude.Result.{Result, ok, err}
use enterprise_data_copilot.Agent.State.{AgentState, Update, apply_update}
use enterprise_data_copilot.Agent.Failures.{Failure, other}
use enterprise_data_copilot.Agent.Steps.Record.{Node, AgentStepRecord}
use enterprise_data_copilot.Agent.Steps.Timed.{Stop, interrupted, raised, Observers}
use enterprise_data_copilot.Agent.Graph.Nodes.{
  AgentActions, Payload, run_node, Edge, to, end, missing_key, edge,
}

-- A run: about to run a node, ended, waiting at an interrupt of a node, or stopped by an exception
-- at a node or at its edge, and the update is then not merged.
pub data Run (V : Type 0) : Type 0 where
  at : Node → AgentState V → Run V
  ended : AgentState V → Run V
  waiting : Node → AgentState V → Run V
  crashed : Node → AgentState V → Failure → Run V

module _ {V : Type 0} (actions : AgentActions V) (o : Observers V) (max_repairs : ℕ) where
  -- From the state before the node and the merged one, which an exception of the edge drops.
  abbrev pub follow : Node → AgentState V → AgentState V → Edge → Run V
  follow n s s' (to m) = at m s'
  follow n s s' end = ended s'
  follow n s s' missing_key = crashed n s (other (codes "KEYERROR"))

  abbrev pub after_node : Node → AgentState V → Result Stop (Update V) → Run V
  after_node n s (ok update) =
      let s' = apply_update s update in follow n s s' (edge max_repairs n s')
  after_node n s (err interrupted) = waiting n s
  after_node n s (err (raised failure)) = crashed n s failure

  -- One node, with the payload of a resume or without.
  unfoldable pub run_at :
      Option Payload → Node → AgentState V → List AgentStepRecord → Run V × List AgentStepRecord
  unfolding run_node edge
  run_at payload n s log =
      let (result, log') = run_node actions o payload n s log in (after_node n s result, log')

  -- The steps of a run, the environment choosing when a waiting run is resumed and with what.
  pub data Step : Run V → Run V → Type 0 where
    advance :
        (n : Node) (s : AgentState V) (log : List AgentStepRecord) {r : Run V}
        → r ≡ (run_at none n s log).0
        → Step (at n s) r
    resume :
        (n : Node) (s : AgentState V) (log : List AgentStepRecord) (payload : Payload) {r : Run V}
        → r ≡ (run_at (some payload) n s log).0
        → Step (waiting n s) r

  pub data Reach (start : Run V) : Run V → Type 0 where
    here : Reach start start
    next : {r t : Run V} → Reach start r → Step r t → Reach start t

  -- The loop of one `invoke`: it runs nodes until the run ends, waits or crashes.
  unfoldable pub invoke : ℕ → Run V → List AgentStepRecord → Run V × List AgentStepRecord
  unfolding run_at
  invoke zero r log = (r, log)
  invoke (suc fuel) (at n s) log = let (r, log') = run_at none n s log in invoke fuel r log'
  invoke (suc fuel) (ended s) log = (ended s, log)
  invoke (suc fuel) (waiting n s) log = (waiting n s, log)
  invoke (suc fuel) (crashed n s failure) log = (crashed n s failure, log)
