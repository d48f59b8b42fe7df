-- ===== src/QuerySafety/Service/Audit.antt =====
-- Every call of the service leaves exactly one audit event, and no query runs without clearance.
use enterprise_data_copilot.Prelude.{
  ◌≡◌, ◌≢◌, refl, sym, ap, ◌∙◌, Text, Bool, true, false, List, [], ◌∷◌, ◌++◌, Option, none, some,
  All, any, arith, if◌then◌else◌,
}
use enterprise_data_copilot.Prelude.Unicode.{Unicode}
use enterprise_data_copilot.Prelude.Result.{Result, ok, err, ◌>>=◌, ok-injective}
use enterprise_data_copilot.Codes.{Code}
use enterprise_data_copilot.QuerySafety.SqlGlot.{SqlGlot}
use enterprise_data_copilot.QuerySafety.Errors.{
  policy_violation, audit_failed, execution_failed, approval_required, Raised, safety, unexpected,
}
use enterprise_data_copilot.QuerySafety.Policy.Model.{QueryPolicy}
use enterprise_data_copilot.QuerySafety.Guard.Inspect.{
  GuardedQuery, inspect, accept, violation, validated, guarded_query,
}
use enterprise_data_copilot.QuerySafety.Result.{
  QueryExecutionResult, QueryCostEstimate, QueryContext, QueryAuditStatus, QueryAuditEvent,
  SafeQueryOutcome,
}
use enterprise_data_copilot.QuerySafety.Service.Run.{
  Collaborators, Call, estimated, executed, recorded, Report, approval_reason, event, record_and,
  after_execute, run_query, after_approval, after_estimate, with_estimator, after_guard,
  execute_fixed,
}

abbrev pub is_estimate : Call → Bool
is_estimate (estimated q) = true
is_estimate (executed q) = false
is_estimate (recorded e) = false

abbrev pub is_execution : Call → Bool
is_execution (estimated q) = false
is_execution (executed q) = true
is_execution (recorded e) = false

abbrev pub IsWork : Call → Type 0
IsWork (recorded e) = ⊥
IsWork (estimated q) = Unit
IsWork (executed q) = Unit

-- The guard's answer is a query or a policy violation.
abbrev IsGuardAnswer : Result Raised GuardedQuery → Type 0
IsGuardAnswer (ok q) = Unit
IsGuardAnswer (err (safety (policy_violation c))) = Unit
IsGuardAnswer (err other) = ⊥

checked-IsGuardAnswer :
    (b : Bool) (q : GuardedQuery)
    → (if b then err unexpected else ok q) ≢ err unexpected
    → IsGuardAnswer (if b then err unexpected else ok q)
checked-IsGuardAnswer true q h = absurd (h refl)
checked-IsGuardAnswer false q h = tt

violation-IsGuardAnswer :
    {A : Type 0} (m : Result Code A) (f : A → GuardedQuery)
    → (violation m >>= λ a. validated (f a)) ≢ err unexpected
    → IsGuardAnswer (violation m >>= λ a. validated (f a))
unfolding validated
violation-IsGuardAnswer (err c) f h = tt
violation-IsGuardAnswer (ok a) f h = checked-IsGuardAnswer _ (f a) h

inspect-IsGuardAnswer :
    (u : Unicode) (g : SqlGlot) (sha256_hex : Text → Text) (sql : Text) (p : QueryPolicy)
    → inspect u g sha256_hex sql p ≢ err unexpected
    → IsGuardAnswer (inspect u g sha256_hex sql p)
unfolding inspect
inspect-IsGuardAnswer u g sha256_hex sql p h =
    violation-IsGuardAnswer (accept u g sql p) (λ a. guarded_query u g sha256_hex (g.sql a.0) p a.1)
      h

-- The calls that were made before the execution.
abbrev estimates : GuardedQuery → Option QueryCostEstimate → List Call
estimates q none = []
estimates q (some e) = estimated q ∷ []

module _ {V : Type 0} (env : Collaborators V) (context : QueryContext) where
  -- The audit trail of one call: one event, recorded last, that names the caller and says which
  -- collaborators were called. Without it there is no result, and a result carries it.
  pub record IsAudited (outcome : Result Raised (SafeQueryOutcome V) × List Call) : Type 0 where
    pub work : List Call
    pub audit : QueryAuditEvent
    pub recorded_last : outcome.1 ≡ work ++ recorded audit ∷ []
    pub only_once : All IsWork work
    pub tenant : audit.tenant_id ≡ context.tenant_id
    pub user : audit.user_id ≡ context.user_id
    pub planner : audit.planner_invoked ≡ any is_estimate work
    pub executor : audit.executor_invoked ≡ any is_execution work
    pub fail_closed : env.audit_sink audit ≡ false → outcome.0 ≡ err (safety audit_failed)
    pub carried :
        (o : SafeQueryOutcome V)
        → outcome.0 ≡ ok o
        → (o.audit ≡ audit)
          × (audit.status ≡ QueryAuditStatus.succeeded)
          × (audit.returned_rows ≡ o.result.returned_row_count)
          × (audit.serialized_bytes ≡ o.result.serialized_bytes)
          × (audit.result_truncated ≡ o.result.truncated)

  -- What the caller of `record_and` must show of a report.
  record Fits (r : Report V) (calls : List Call)
      (result : QueryAuditEvent → Result Raised (SafeQueryOutcome V)) : Type 0 where
    once : All IsWork calls
    planner : r.planner_invoked ≡ any is_estimate calls
    executor : r.executor_invoked ≡ any is_execution calls
    success :
        (e : QueryAuditEvent) (o : SafeQueryOutcome V)
        → result e ≡ ok o
        → (o.audit ≡ e) × (r.status ≡ QueryAuditStatus.succeeded) × (r.result ≡ some o.result)

  accepted :
      {E A : Type 0} (b : Bool) (x : Result E A) (e : E) {o : A}
      → (if b then x else err e) ≡ ok o
      → x ≡ ok o
  accepted b x e h = ground arith

  record_and-IsAudited :
      (r : Report V) (calls : List Call)
      (result : QueryAuditEvent → Result Raised (SafeQueryOutcome V))
      → Fits r calls result
      → IsAudited (record_and env context r calls result)
  unfolding record_and event
  record_and-IsAudited r calls result h = record {
    work = calls;
    audit = event env context r;
    recorded_last = refl;
    only_once = h.once;
    tenant = refl;
    user = refl;
    planner = h.planner;
    executor = h.executor;
    fail_closed = λ closed. rw closed;
    carried = λ o returned.
        let (same, status, result_of) = h.success (event env context r) o (
          accepted (env.audit_sink (event env context r)) (result (event env context r))
            (safety audit_failed) returned) in
        (same, status, rw result_of, rw result_of, rw result_of);
  }

  raised-IsAudited :
      (r : Report V) (calls : List Call) (x : Raised)
      → All IsWork calls
      → r.planner_invoked ≡ any is_estimate calls
      → r.executor_invoked ≡ any is_execution calls
      → IsAudited (record_and env context r calls (λ e. err x))
  raised-IsAudited r calls x once planner executor =
      record_and-IsAudited r calls (λ e. err x)
        (record { once = once; planner = planner; executor = executor; success = λ e o h. cc })

  returned-IsAudited :
      (r : Report V) (calls : List Call) (result : QueryExecutionResult V)
      → All IsWork calls
      → r.planner_invoked ≡ any is_estimate calls
      → r.executor_invoked ≡ any is_execution calls
      → r.status ≡ QueryAuditStatus.succeeded
      → r.result ≡ some result
      → IsAudited (record_and env context r calls (λ e. ok (record { result = result; audit = e })))
  returned-IsAudited r calls result once planner executor status same =
      record_and-IsAudited r calls (λ e. ok (record { result = result; audit = e }))
        (record {
          once = once;
          planner = planner;
          executor = executor;
          success = λ e o h.
              let outcome = ok-injective h in
              (
                ap (λ (x : SafeQueryOutcome V). x.audit) (sym outcome),
                status,
                same ∙ ap (λ (x : SafeQueryOutcome V). some x.result) outcome,
              );
        })

  module _ (p : QueryPolicy) where
    after_execute-IsAudited :
        (q : GuardedQuery) (estimate : Option QueryCostEstimate)
        (r : Result Raised (QueryExecutionResult V))
        → IsAudited
            (after_execute env context p q estimate (estimates q estimate ++ executed q ∷ []) r)
    after_execute-IsAudited q none (ok result) =
        returned-IsAudited _ _ result (tt, tt) refl refl refl refl
    after_execute-IsAudited q (some e) (ok result) =
        returned-IsAudited _ _ result (tt, (tt, tt)) refl refl refl refl
    after_execute-IsAudited q none (err (safety error)) =
        raised-IsAudited _ _ (safety error) (tt, tt) refl refl
    after_execute-IsAudited q (some e) (err (safety error)) =
        raised-IsAudited _ _ (safety error) (tt, (tt, tt)) refl refl
    after_execute-IsAudited q none (err unexpected) =
        raised-IsAudited _ _ (safety execution_failed) (tt, tt) refl refl
    after_execute-IsAudited q (some e) (err unexpected) =
        raised-IsAudited _ _ (safety execution_failed) (tt, (tt, tt)) refl refl

    run_query-IsAudited :
        (q : GuardedQuery) (estimate : Option QueryCostEstimate)
        → IsAudited (run_query env context p q estimate (estimates q estimate))
    unfolding run_query
    run_query-IsAudited q estimate = after_execute-IsAudited q estimate (env.executor q p)

    after_approval-IsAudited :
        (q : GuardedQuery) (estimate : QueryCostEstimate) (reason : Option Code)
        → IsAudited (after_approval env context p q estimate reason)
    after_approval-IsAudited q estimate none = run_query-IsAudited q (some estimate)
    after_approval-IsAudited q estimate (some reason) =
        raised-IsAudited _ _
          (safety (approval_required reason estimate.total_cost estimate.plan_rows)) (tt, tt) refl
          refl

    after_estimate-IsAudited :
        (q : GuardedQuery) (r : Result Raised QueryCostEstimate)
        → IsAudited (after_estimate env context p q r)
    after_estimate-IsAudited q (ok estimate) =
        after_approval-IsAudited q estimate (approval_reason estimate p)
    after_estimate-IsAudited q (err (safety error)) =
        raised-IsAudited _ _ (safety error) (tt, tt) refl refl
    after_estimate-IsAudited q (err unexpected) =
        raised-IsAudited _ _ (safety execution_failed) (tt, tt) refl refl

    with_estimator-IsAudited :
        (q : GuardedQuery) (f : Option (GuardedQuery → Result Raised QueryCostEstimate))
        → IsAudited (with_estimator env context p q f)
    with_estimator-IsAudited q none = run_query-IsAudited q none
    with_estimator-IsAudited q (some estimator) = after_estimate-IsAudited q (estimator q)

    module _ (u : Unicode) (g : SqlGlot) (sha256_hex : Text → Text) where
      after_guard-IsAudited :
          (sql : Text) (r : Result Raised GuardedQuery)
          → IsGuardAnswer r
          → IsAudited (after_guard env context p u g sha256_hex sql r)
      after_guard-IsAudited sql (ok q) h = with_estimator-IsAudited q env.cost_estimator
      after_guard-IsAudited sql (err (safety (policy_violation reason))) h =
          raised-IsAudited _ _ (safety (policy_violation reason)) tt refl refl
      after_guard-IsAudited sql (err other) h = absurd h

      -- Whatever the collaborators answer, a call whose guard accepts or rejects the text records
      -- exactly one audit event, as its last action, and the event says truly which collaborators
      -- were called. If it cannot be recorded the call raises, even after a successful execution.
      pub execute_fixed-IsAudited :
          (sql : Text)
          → inspect u g sha256_hex sql p ≢ err unexpected
          → IsAudited (execute_fixed env context p u g sha256_hex sql)
      unfolding execute_fixed
      execute_fixed-IsAudited sql h =
          after_guard-IsAudited sql (inspect u g sha256_hex sql p)
            (inspect-IsGuardAnswer u g sha256_hex sql p h)
