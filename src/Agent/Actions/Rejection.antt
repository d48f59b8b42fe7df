-- ===== src/Agent/Actions/Rejection.antt =====
-- A question that the guard rejects.
use enterprise_data_copilot.Prelude.{ℕ, ◌≡◌, refl, sym, subst, Text, List, [], ◌∷◌, none, some}
use enterprise_data_copilot.Prelude.Unicode.{Unicode}
use enterprise_data_copilot.Prelude.Result.{Result, ok, err, ok-injective}
use enterprise_data_copilot.Codes.{Code}
use enterprise_data_copilot.QuerySafety.SqlGlot.{SqlGlot}
use enterprise_data_copilot.Nl2sql.Errors.{question_rejected}
use enterprise_data_copilot.Nl2sql.Question.{inspect_question}
use enterprise_data_copilot.Agent.State.{AgentState, Update, blocked, no_update, apply_update}
use enterprise_data_copilot.Agent.Charting.{Cell}
use enterprise_data_copilot.Agent.Answering.{Values}
use enterprise_data_copilot.Agent.Steps.Record.{classify, AgentStepRecord}
use enterprise_data_copilot.Agent.Steps.Timed.{Stop, interrupted, raised, Observers}
use enterprise_data_copilot.Agent.Graph.Nodes.{AgentActions, run_node, edge}
use enterprise_data_copilot.Agent.Graph.Machine.{
  Run, at, ended, waiting, crashed, after_node, run_at, Step, advance, resume, Reach, here, next,
}
use enterprise_data_copilot.Agent.Graph.Inversion.{run_node-ok, run_node-interrupted, as_stop-ok}
use enterprise_data_copilot.Agent.Actions.Backend.{Backend}
use enterprise_data_copilot.Agent.Actions.Nodes
use enterprise_data_copilot.Agent.Actions.Nodes.{northwind_actions}

-- The update of a rejection.
abbrev pub refusal : {V : Type 0} → Code → Update V
refusal reason = record no_update {
  sql_risk = some blocked;
  risk_reasons = some (reason ∷ []);
  error_code = some (some reason);
}

-- The run is still at its first node, has ended refused there, or the sink of the steps raised.
abbrev pub IsRefused : {V : Type 0} → AgentState V → Code → Run V → Type 0
IsRefused s reason (at n t) = (n ≡ classify) × (t ≡ s)
IsRefused s reason (ended t) = t ≡ apply_update s (refusal reason)
IsRefused s reason (waiting n t) = ⊥
IsRefused s reason (crashed n t failure) = (n ≡ classify) × (t ≡ s)

module _ {V D : Type 0} (u : Unicode) (g : SqlGlot) (sha256_hex : Text → Text) (values : Values V D)
    (cell : V → Cell) (b : Backend V g.Expression) (o : Observers V) (max_repairs : ℕ)
    (s : AgentState V) (reason : Code)
    (rejected : inspect_question b.patterns s.identity.question
      ≡ err (question_rejected reason)) where
  abbrev actions : AgentActions V
  actions = northwind_actions u g sha256_hex values cell b

  classify-refusal :
      (w : Update V) → Nodes.classify u g sha256_hex values cell b s ≡ ok w → w ≡ refusal reason
  unfolding Nodes.classify
  classify-refusal w h = sym (ok-injective (rw rejected at h))

  after_node-IsRefused :
      (log : List AgentStepRecord) (result : Result Stop (Update V))
      → (run_node actions o none classify s log).0 ≡ result
      → IsRefused s reason (after_node actions o max_repairs classify s result)
  unfolding edge
  after_node-IsRefused log (ok w) h =
      let same = classify-refusal w (
        as_stop-ok actions o (actions.classify s) w
          (run_node-ok actions o none classify s log w h)) in
      subst (λ v. IsRefused s reason (after_node actions o max_repairs classify s (ok v)))
        (sym same) refl
  after_node-IsRefused log (err interrupted) h =
      cc (run_node-interrupted actions o none classify s log h)
  after_node-IsRefused log (err (raised f)) h = (refl, refl)

  Step-IsRefused :
      {r t : Run V} → Step actions o max_repairs r t → IsRefused s reason r → IsRefused s reason t
  unfolding run_at
  Step-IsRefused (advance n t log e) i = subst (IsRefused s reason) (sym e) (
      subst (λ m. IsRefused s reason (run_at actions o max_repairs none m t log).0) (sym i.0)
        (subst (λ t. IsRefused s reason (run_at actions o max_repairs none classify t log).0)
          (sym i.1) (after_node-IsRefused log _ refl)))
  Step-IsRefused (resume n t log payload e) i = absurd i

  -- A rejected question ends its run at the first node, with the reason as the error code, unless
  -- the sink of the steps raises: no other node ever runs.
  pub rejection-IsFinal :
      {r : Run V} → Reach actions o max_repairs (at classify s) r → IsRefused s reason r
  rejection-IsFinal here = (refl, refl)
  rejection-IsFinal (next r st) = Step-IsRefused st (rejection-IsFinal r)
