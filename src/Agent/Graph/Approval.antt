-- ===== src/Agent/Graph/Approval.antt =====
-- No query is executed unless its guard called it safe or an approval was given.
use enterprise_data_copilot.Prelude.{
  ℕ, ◌≡◌, refl, sym, subst, ◌⊎◌, inl, inr, List, Option, none, some,
}
use enterprise_data_copilot.Prelude.Result.{Result, ok, err}
use enterprise_data_copilot.Codes.{Code}
use enterprise_data_copilot.Agent.State.{
  no_update, AgentState, Update, safe, approval, ApprovalDecision, approved, apply_update,
}
use enterprise_data_copilot.Agent.Steps.Record.{
  Node, classify, guard_sql, request_approval, execute_sql, AgentStepRecord,
}
use enterprise_data_copilot.Agent.Steps.Timed.{Stop, interrupted, raised, Observers}
use enterprise_data_copilot.Agent.Graph.Nodes.{
  AgentActions, Payload, run_node, Edge, to, end, missing_key, edge, operation,
}
use enterprise_data_copilot.Agent.Graph.Machine.{
  Run, at, ended, waiting, crashed, follow, after_node, run_at, Step, advance, resume, Reach, here,
  next,
}
use enterprise_data_copilot.Agent.Graph.Diagram.{
  Follows, accept, explain, analyse, draft, inspect, run, ask, redraft, permit, check, retry,
  present, edge-Follows,
}
use enterprise_data_copilot.Agent.Graph.Inversion.{
  as_stop-ok, run_node-ok, run_node-interrupted, pause-ok,
}

-- The state allows an execution: the guard's verdict is `safe`, or it asks for an approval and the
-- decision is `approved`.
abbrev pub IsCleared : {V : Type 0} → AgentState V → Type 0
IsCleared s =
    (s.values.sql_risk ≡ some safe)
    ⊎ ((s.values.sql_risk ≡ some approval) × (s.values.approval_decision ≡ some approved))

-- What an implementation promises of its guard: where it does not end in `repair` or `blocked`, the
-- new state is inspected; and that it is stays true when only a decision and an error code change.
pub record Inspects {V : Type 0} (actions : AgentActions V) (Inspected : AgentState V → Type 0)
    : Type 0 where
  pub guarded :
      (s : AgentState V) (u : Update V)
      → actions.guard_sql s ≡ ok u
      → ((apply_update s u).values.sql_risk ≡ some safe)
        ⊎ ((apply_update s u).values.sql_risk ≡ some approval)
      → Inspected (apply_update s u)
  pub stable :
      (s : AgentState V) (d : Option ApprovalDecision) (e : Option (Option Code))
      → Inspected s
      → Inspected (apply_update s (record no_update { approval_decision = d; error_code = e }))

module _ {V : Type 0} (Inspected : AgentState V → Type 0) where
  abbrev NodeInv : Node → AgentState V → Type 0
  NodeInv request_approval s = (s.values.sql_risk ≡ some approval) × Inspected s
  NodeInv execute_sql s = IsCleared s × Inspected s
  NodeInv n s = Unit

  abbrev Inv : Run V → Type 0
  Inv (at n s) = NodeInv n s
  Inv (ended s) = Unit
  Inv (waiting n s) = (n ≡ request_approval) × NodeInv request_approval s
  Inv (crashed n s f) = Unit

  module _ (max_repairs : ℕ) (actions : AgentActions V) (o : Observers V)
      (laws : Inspects actions Inspected) where
    -- What the node that was left guarantees of the state behind it.
    abbrev Leaves : Node → AgentState V → Type 0
    Leaves guard_sql t =
        (t.values.sql_risk ≡ some safe) ⊎ (t.values.sql_risk ≡ some approval) → Inspected t
    Leaves request_approval t = (t.values.sql_risk ≡ some approval) × Inspected t
    Leaves n t = Unit

    Follows-Inv :
        {n m : Node} (t : AgentState V) → Follows max_repairs t n m → Leaves n t → NodeInv m t
    Follows-Inv t (accept h) l = tt
    Follows-Inv t (explain h) l = tt
    Follows-Inv t (analyse i e h) l = tt
    Follows-Inv t draft l = tt
    Follows-Inv t inspect l = tt
    Follows-Inv t (run h) l = (inl h, l (inl h))
    Follows-Inv t (ask h) l = (h, l (inr h))
    Follows-Inv t (redraft e h) l = tt
    Follows-Inv t (permit h) l = (inr (l.0, h), l.1)
    Follows-Inv t check l = tt
    Follows-Inv t (retry e h) l = tt
    Follows-Inv t (present h) l = tt

    follow-Inv :
        (n : Node) (s t : AgentState V) (e : Edge)
        → edge max_repairs n t ≡ e
        → Leaves n t
        → Inv (follow actions o max_repairs n s t e)
    follow-Inv n s t (to m) h l = Follows-Inv t (edge-Follows max_repairs t n m h) l
    follow-Inv n s t end h l = tt
    follow-Inv n s t missing_key h l = tt

    -- An update that a node returned leads to what the node guarantees.
    operation-Leaves :
        (payload : Option Payload) (n : Node) (s : AgentState V) (log : List AgentStepRecord)
        (u : Update V)
        → NodeInv n s
        → (operation actions o payload n s log).0 ≡ ok u
        → Leaves n (apply_update s u)
    operation-Leaves payload guard_sql s log u i h =
        laws.guarded s u (as_stop-ok actions o (actions.guard_sql s) u h)
    operation-Leaves payload request_approval s log u i h =
        let (d, answered, same, made) = pause-ok actions o payload s log u h in
        subst (λ v. Leaves request_approval (apply_update s v)) (sym same)
          (i.0, laws.stable s u.approval_decision u.error_code i.1)
    operation-Leaves payload n s log u i h = tt

    after_node-Inv :
        (payload : Option Payload) (n : Node) (s : AgentState V) (log : List AgentStepRecord)
        (result : Result Stop (Update V))
        → NodeInv n s
        → (run_node actions o payload n s log).0 ≡ result
        → Inv (after_node actions o max_repairs n s result)
    after_node-Inv payload n s log (ok u) i h =
        follow-Inv n s (apply_update s u) _ refl
          (operation-Leaves payload n s log u i (run_node-ok actions o payload n s log u h))
    after_node-Inv payload n s log (err interrupted) i h =
        let waits = run_node-interrupted actions o payload n s log h in
        (waits, subst (λ k. NodeInv k s) waits i)
    after_node-Inv payload n s log (err (raised f)) i h = tt

    Step-Inv : {r t : Run V} → Step actions o max_repairs r t → Inv r → Inv t
    unfolding run_at
    Step-Inv (advance n s log e) i = subst Inv (sym e) (after_node-Inv none n s log _ i refl)
    Step-Inv (resume n s log payload e) i =
        subst Inv (sym e)
          (after_node-Inv (some payload) n s log _ (subst (λ k. NodeInv k s) (sym i.0) i.1) refl)

    Reach-Inv : {r t : Run V} → Reach actions o max_repairs r t → Inv r → Inv t
    Reach-Inv here i = i
    Reach-Inv (next r st) i = Step-Inv st (Reach-Inv r i)

    -- However a run goes, through repairs, retries, interrupts and resumes, it comes to the
    -- execution only in a state that was inspected, and whose guard either called the query safe or
    -- asked for an approval that was then given.
    pub execution-IsCleared :
        (s t : AgentState V)
        → Reach actions o max_repairs (at classify s) (at execute_sql t)
        → IsCleared t × Inspected t
    execution-IsCleared s t r = Reach-Inv r tt

    -- A run waits only for an approval that its guard asked for.
    pub waits_for_approval :
        (s t : AgentState V) (n : Node)
        → Reach actions o max_repairs (at classify s) (waiting n t)
        → (n ≡ request_approval) × (t.values.sql_risk ≡ some approval)
    waits_for_approval s t n r = let (same, i) = Reach-Inv r tt in (same, i.0)
