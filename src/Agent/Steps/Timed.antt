-- ===== src/Agent/Steps/Timed.antt =====
-- `timed_step`: one node with its record, whatever the sink answers.
use enterprise_data_copilot.Prelude.{ℕ, Text, List, [], ◌∷◌, ◌++◌, Option, none, some}
use enterprise_data_copilot.Prelude.Result.{Result, ok, err}
use enterprise_data_copilot.Agent.State.{AgentState, Update, attempts_of, apply_update}
use enterprise_data_copilot.Agent.Failures.{Failure, failure_code, classify_error}
use enterprise_data_copilot.Agent.Steps.Record.{
  Node, StepStatus, Output, summary, error_class, AgentStepRecord, state_summary,
}

-- How a node ends early: the graph's interrupt, or an exception.
pub data Stop : Type 0 where
  interrupted : Stop
  raised : Failure → Stop

-- The sinks and the clock. A sink returns, or raises; its answer may depend on what was sent before.
pub record Observers (V : Type 0) : Type 0 where
  pub record_step : List AgentStepRecord → AgentStepRecord → Option Failure
  pub ensure_pending : List AgentStepRecord → AgentState V → Option Failure
  pub duration_ms : List AgentStepRecord → ℕ
  pub sha256_hex : Text → Text

-- The records that were sent so far stand beside every result.
abbrev pub Logged : Type 0 → Type 0
Logged A = Result Stop A × List AgentStepRecord

module _ {V : Type 0} (o : Observers V) where
  abbrev pub step_record :
      List AgentStepRecord
      → Node
      → AgentState V
      → StepStatus
      → Output
      → Option Text
      → AgentStepRecord
  step_record log name s status output code = record {
    run_id = s.identity.run_id;
    step_name = name;
    status = status;
    attempt = attempts_of s;
    input_summary = state_summary o.sha256_hex s;
    output_summary = output;
    duration_ms = o.duration_ms log;
    error_code = code;
  }

  -- `sink.record(...)`, then what follows it, or its exception.
  abbrev pub send :
      {A : Type 0}
      → List AgentStepRecord
      → AgentStepRecord
      → (List AgentStepRecord → Logged A)
      → (Failure → List AgentStepRecord → Logged A)
      → Logged A
  send log r next catch = elim (o.record_step log r) [
    | none ↦ next (log ++ r ∷ [])
    | some failure ↦ catch failure (log ++ r ∷ [])
  ]

  -- The `except Exception` branch; an exception of the sink replaces the first.
  unfoldable pub fail_step :
      Node → AgentState V → Failure → List AgentStepRecord → Logged (Update V)
  fail_step name s failure log =
      let r =
        step_record log name s StepStatus.failed (error_class (classify_error failure))
          (some (failure_code failure)) in
      send log r (λ log'. (err (raised failure), log'))
        (λ failure' log'. (err (raised failure'), log'))

  -- After the operation has ended.
  abbrev pub finish_step : Node → AgentState V → Logged (Update V) → Logged (Update V)
  finish_step name s (ok update, log) =
      let r =
        step_record log name s StepStatus.succeeded
          (summary (state_summary o.sha256_hex (apply_update s update))) none in
      send log r (λ log'. (ok update, log')) (fail_step name s)
  finish_step name s (err interrupted, log) = (err interrupted, log)
  finish_step name s (err (raised failure), log) = fail_step name s failure log

  unfoldable pub timed_step :
      Node
      → AgentState V
      → (AgentState V → List AgentStepRecord → Logged (Update V))
      → List AgentStepRecord
      → Logged (Update V)
  unfolding fail_step
  timed_step name s operation log = finish_step name s (operation s log)
