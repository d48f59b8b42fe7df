-- ===== src/Agent/Graph/Diagram.antt =====
-- The diagram of the workflow, as a relation, and that the conditional edges follow it.
use enterprise_data_copilot.Prelude.{
  ℕ, ◌≤◌, ◌<◌, ◌≡◌, ◌≢◌, refl, sym, subst, ◌⊎◌, inl, inr, Bool, true, false, Option, none, some,
  arith,
}
use enterprise_data_copilot.Codes.{Code}
use enterprise_data_copilot.Agent.State.{
  AgentState, Intent, knowledge, sql, hybrid, SqlRisk, safe, approval, blocked, repair,
  ApprovalDecision, approved, rejected, error_of, attempts_of,
}
use enterprise_data_copilot.Agent.Steps.Record.{
  Node, classify, retrieve_metrics, select_schema, generate_sql, guard_sql, request_approval,
  execute_sql, verify, compose,
}
use enterprise_data_copilot.Agent.Graph.Nodes.{
  to, edge, after_classify, after_retrieve, after_guard, after_approval, after_verify, may_repair,
}

-- The arrows of the diagram, each with its condition on the state behind the node.
pub data Follows {V : Type 0} (max_repairs : ℕ) (s : AgentState V) : Node → Node → Type 0 where
  accept : s.values.sql_risk ≢ some blocked → Follows max_repairs s classify retrieve_metrics
  explain : s.values.intent ≡ some knowledge → Follows max_repairs s retrieve_metrics compose
  analyse :
      (i : Intent)
      → s.values.intent ≡ some i
      → i ≢ knowledge
      → Follows max_repairs s retrieve_metrics select_schema
  draft : Follows max_repairs s select_schema generate_sql
  inspect : Follows max_repairs s generate_sql guard_sql
  run : s.values.sql_risk ≡ some safe → Follows max_repairs s guard_sql execute_sql
  ask : s.values.sql_risk ≡ some approval → Follows max_repairs s guard_sql request_approval
  redraft :
      s.values.sql_risk ≡ some repair
      → attempts_of s ≤ max_repairs
      → Follows max_repairs s guard_sql generate_sql
  permit :
      s.values.approval_decision ≡ some approved
      → Follows max_repairs s request_approval execute_sql
  check : Follows max_repairs s execute_sql verify
  retry :
      error_of s ≢ none → attempts_of s ≤ max_repairs → Follows max_repairs s verify generate_sql
  present :
      (error_of s ≡ none) ⊎ (max_repairs < attempts_of s) → Follows max_repairs s verify compose

to-injective : {m n : Node} → to m ≡ to n → m ≡ n
to-injective h = cc

module _ {V : Type 0} (max_repairs : ℕ) (s : AgentState V) where
  lands :
      (n : Node) {m m' : Node}
      → Follows max_repairs s n m
      → to m ≡ to m'
      → Follows max_repairs s n m'
  lands n f h = subst (λ k. Follows max_repairs s n k) (to-injective h) f

  classify-Follows :
      (r : Option SqlRisk) (m : Node)
      → s.values.sql_risk ≡ r
      → after_classify r ≡ to m
      → Follows max_repairs s classify m
  classify-Follows (some blocked) m e h = cc
  classify-Follows none m e h = lands classify (accept (λ b. cc)) h
  classify-Follows (some safe) m e h = lands classify (accept (λ b. cc)) h
  classify-Follows (some approval) m e h = lands classify (accept (λ b. cc)) h
  classify-Follows (some repair) m e h = lands classify (accept (λ b. cc)) h

  retrieve-Follows :
      (i : Option Intent) (m : Node)
      → s.values.intent ≡ i
      → after_retrieve i ≡ to m
      → Follows max_repairs s retrieve_metrics m
  retrieve-Follows none m e h = cc
  retrieve-Follows (some knowledge) m e h = lands retrieve_metrics (explain e) h
  retrieve-Follows (some sql) m e h = lands retrieve_metrics (analyse sql e (λ k. cc)) h
  retrieve-Follows (some hybrid) m e h = lands retrieve_metrics (analyse hybrid e (λ k. cc)) h

  guard-Follows :
      (may : Bool) (r : Option SqlRisk) (m : Node)
      → may_repair max_repairs s ≡ may
      → s.values.sql_risk ≡ r
      → after_guard may r ≡ to m
      → Follows max_repairs s guard_sql m
  guard-Follows may none m p e h = cc
  guard-Follows may (some safe) m p e h = lands guard_sql (run e) h
  guard-Follows may (some approval) m p e h = lands guard_sql (ask e) h
  guard-Follows may (some blocked) m p e h = cc
  guard-Follows true (some repair) m p e h = lands guard_sql (redraft e (ground arith)) h
  guard-Follows false (some repair) m p e h = cc

  approval-Follows :
      (d : Option ApprovalDecision) (m : Node)
      → s.values.approval_decision ≡ d
      → after_approval d ≡ to m
      → Follows max_repairs s request_approval m
  approval-Follows none m e h = cc
  approval-Follows (some approved) m e h = lands request_approval (permit e) h
  approval-Follows (some rejected) m e h = cc

  verify-Follows :
      (may : Bool) (c : Option Code) (m : Node)
      → may_repair max_repairs s ≡ may
      → error_of s ≡ c
      → after_verify may c ≡ to m
      → Follows max_repairs s verify m
  verify-Follows may none m p e h = lands verify (present (inl e)) h
  verify-Follows true (some c) m p e h = lands verify (retry (λ k. cc (sym k)) (ground arith)) h
  verify-Follows false (some c) m p e h = lands verify (present (inr (ground arith))) h

  pub edge-Follows : (n m : Node) → edge max_repairs n s ≡ to m → Follows max_repairs s n m
  unfolding edge
  edge-Follows classify m h = classify-Follows s.values.sql_risk m refl h
  edge-Follows retrieve_metrics m h = retrieve-Follows s.values.intent m refl h
  edge-Follows select_schema m h = lands select_schema draft h
  edge-Follows generate_sql m h = lands generate_sql inspect h
  edge-Follows guard_sql m h =
      guard-Follows (may_repair max_repairs s) s.values.sql_risk m refl refl h
  edge-Follows request_approval m h = approval-Follows s.values.approval_decision m refl h
  edge-Follows execute_sql m h = lands execute_sql check h
  edge-Follows verify m h = verify-Follows (may_repair max_repairs s) (error_of s) m refl refl h
  edge-Follows compose m h = cc
