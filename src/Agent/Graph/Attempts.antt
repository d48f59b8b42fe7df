-- ===== src/Agent/Graph/Attempts.antt =====
-- The counter of SQL drafts: no run makes more than `max_repairs + 1`.
use enterprise_data_copilot.Prelude.{
  ℕ, ◌+◌, ◌*◌, ◌-◌, ◌≤◌, ◌<◌, ◌≡◌, ap, List, Option, none, some, arith,
}
use enterprise_data_copilot.Prelude.Result.{Result, ok}
use enterprise_data_copilot.Agent.State.{AgentState, Update, attempts_of, apply_update}
use enterprise_data_copilot.Agent.Failures.{Failure}
use enterprise_data_copilot.Agent.Steps.Record.{
  Node, classify, retrieve_metrics, select_schema, generate_sql, guard_sql, request_approval,
  execute_sql, verify, compose, AgentStepRecord,
}
use enterprise_data_copilot.Agent.Steps.Timed.{Observers}
use enterprise_data_copilot.Agent.Graph.Nodes.{AgentActions, Payload, operation, as_stop}
use enterprise_data_copilot.Agent.Graph.Diagram.{
  Follows, accept, explain, analyse, draft, inspect, run, ask, redraft, permit, check, retry,
  present,
}
use enterprise_data_copilot.Agent.Graph.Inversion.{as_stop-ok, pause-ok}

-- What an implementation promises of the counter: a draft counts itself, and nothing else writes it.
pub record Counts {V : Type 0} (actions : AgentActions V) : Type 0 where
  pub classify : (s : AgentState V) (u : Update V) → actions.classify s ≡ ok u → u.attempts ≡ none
  pub retrieve_metrics :
      (s : AgentState V) (u : Update V) → actions.retrieve_metrics s ≡ ok u → u.attempts ≡ none
  pub select_schema :
      (s : AgentState V) (u : Update V) → actions.select_schema s ≡ ok u → u.attempts ≡ none
  pub generate_sql :
      (s : AgentState V) (u : Update V)
      → actions.generate_sql s ≡ ok u
      → u.attempts ≡ some (attempts_of s + 1)
  pub guard_sql : (s : AgentState V) (u : Update V) → actions.guard_sql s ≡ ok u → u.attempts ≡ none
  pub execute_sql :
      (s : AgentState V) (u : Update V) → actions.execute_sql s ≡ ok u → u.attempts ≡ none
  pub verify : (s : AgentState V) (u : Update V) → actions.verify s ≡ ok u → u.attempts ≡ none
  pub compose : (s : AgentState V) (u : Update V) → actions.compose s ≡ ok u → u.attempts ≡ none

-- The drafts that a node adds.
abbrev pub drafts : Node → ℕ
drafts generate_sql = 1
drafts n = 0

-- The drafts that are certain to come before the next guard.
abbrev pub upcoming : Node → ℕ
upcoming classify = 1
upcoming retrieve_metrics = 1
upcoming select_schema = 1
upcoming generate_sql = 1
upcoming n = 0

abbrev pub IsWithin : {V : Type 0} → ℕ → Node → AgentState V → Type 0
IsWithin max_repairs n s = attempts_of s + upcoming n ≤ max_repairs + 1

abbrev pub base : Node → ℕ
base classify = 4
base retrieve_metrics = 3
base select_schema = 2
base generate_sql = 1
base guard_sql = 5
base request_approval = 4
base execute_sql = 3
base verify = 2
base compose = 1

-- The nodes that can still be run, this one included.
abbrev pub rank : {V : Type 0} → ℕ → Node → AgentState V → ℕ
rank max_repairs n s = base n + 5 * (max_repairs + 1 - attempts_of s)

module _ {V : Type 0} (max_repairs : ℕ) (actions : AgentActions V) (o : Observers V)
    (laws : Counts actions) where
  kept :
      (s : AgentState V) (u : Update V)
      → u.attempts ≡ none
      → attempts_of (apply_update s u) ≡ attempts_of s
  kept s u h = ground arith

  counted :
      (s : AgentState V) (u : Update V) (k : ℕ)
      → u.attempts ≡ some k
      → attempts_of (apply_update s u) ≡ k
  counted s u k h = ground arith

  uncounted :
      (action : AgentState V → Result Failure (Update V)) (s : AgentState V) (u : Update V)
      → (action s ≡ ok u → u.attempts ≡ none)
      → as_stop actions o (action s) ≡ ok u
      → attempts_of (apply_update s u) ≡ attempts_of s + 0
  uncounted action s u law h = omega (arith, kept s u (law (as_stop-ok actions o (action s) u h)))

  pub operation-attempts :
      (payload : Option Payload) (n : Node) (s : AgentState V) (log : List AgentStepRecord)
      (u : Update V)
      → (operation actions o payload n s log).0 ≡ ok u
      → attempts_of (apply_update s u) ≡ attempts_of s + drafts n
  operation-attempts payload generate_sql s log u h =
      counted s u (attempts_of s + 1)
        (laws.generate_sql s u (as_stop-ok actions o (actions.generate_sql s) u h))
  operation-attempts payload request_approval s log u h =
      let (d, answered, same, made) = pause-ok actions o payload s log u h in
      omega (arith, kept s u (ap (λ (v : Update V). v.attempts) same))
  operation-attempts payload classify s log u h =
      uncounted actions.classify s u (laws.classify s u) h
  operation-attempts payload retrieve_metrics s log u h =
      uncounted actions.retrieve_metrics s u (laws.retrieve_metrics s u) h
  operation-attempts payload select_schema s log u h =
      uncounted actions.select_schema s u (laws.select_schema s u) h
  operation-attempts payload guard_sql s log u h =
      uncounted actions.guard_sql s u (laws.guard_sql s u) h
  operation-attempts payload execute_sql s log u h =
      uncounted actions.execute_sql s u (laws.execute_sql s u) h
  operation-attempts payload verify s log u h = uncounted actions.verify s u (laws.verify s u) h
  operation-attempts payload compose s log u h = uncounted actions.compose s u (laws.compose s u) h

  -- Along every arrow the limit is kept and the rank falls.
  pub Follows-falls :
      (s t : AgentState V) {n m : Node}
      → IsWithin max_repairs n s
      → attempts_of t ≡ attempts_of s + drafts n
      → Follows max_repairs t n m
      → IsWithin max_repairs m t × (rank max_repairs m t < rank max_repairs n s)
  Follows-falls s t w a (accept h) = (omega arith, omega arith)
  Follows-falls s t w a (explain h) = (omega arith, omega arith)
  Follows-falls s t w a (analyse i e h) = (omega arith, omega arith)
  Follows-falls s t w a draft = (omega arith, omega arith)
  Follows-falls s t w a inspect = (omega arith, omega arith)
  Follows-falls s t w a (run h) = (omega arith, omega arith)
  Follows-falls s t w a (ask h) = (omega arith, omega arith)
  Follows-falls s t w a (redraft e h) = (omega arith, omega arith)
  Follows-falls s t w a (permit h) = (omega arith, omega arith)
  Follows-falls s t w a check = (omega arith, omega arith)
  Follows-falls s t w a (retry e h) = (omega arith, omega arith)
  Follows-falls s t w a (present h) = (omega arith, omega arith)
