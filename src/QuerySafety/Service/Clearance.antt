-- ===== src/QuerySafety/Service/Clearance.antt =====
-- What must have happened before a query reaches the executor.
use enterprise_data_copilot.Prelude.{
  ◌≤◌, ◌≡◌, refl, sym, ◌∙◌, Text, List, [], ◌∷◌, ◌++◌, Option, none, some, All, arith,
}
use enterprise_data_copilot.Prelude.Unicode.{Unicode}
use enterprise_data_copilot.Prelude.Result.{Result, ok, err}
use enterprise_data_copilot.Codes.{Code}
use enterprise_data_copilot.QuerySafety.SqlGlot.{SqlGlot}
use enterprise_data_copilot.QuerySafety.Errors.{Raised, safety, unexpected, policy_violation}
use enterprise_data_copilot.QuerySafety.Policy.Model.{QueryPolicy}
use enterprise_data_copilot.QuerySafety.Guard.Inspect.{GuardedQuery, inspect}
use enterprise_data_copilot.QuerySafety.Result.{
  QueryExecutionResult, QueryCostEstimate, QueryContext, SafeQueryOutcome, QueryAuditEvent,
}
use enterprise_data_copilot.QuerySafety.Service.Run.{
  Collaborators, Call, estimated, executed, recorded, Report, approval_reason, record_and,
  after_execute, run_query, after_approval, after_estimate, with_estimator, after_guard,
  execute_fixed,
}

same_estimator :
    {A B : Type 0} (f' f : A → B) (q : A) → ◌≡◌ {A = Option (A → B)} (some f') (some f) → f' q ≡ f q
same_estimator f' f q h = let same : f' ≡ f = cc in λ i. same i q

-- An estimate within the limits of the policy.
pub record IsAffordable (p : QueryPolicy) (estimate : QueryCostEstimate) : Type 0 where
  pub cost : estimate.total_cost ≤ p.max_total_cost
  pub rows : estimate.plan_rows ≤ p.max_plan_rows

module _ {V : Type 0} (env : Collaborators V) (context : QueryContext) (p : QueryPolicy)
    (answer : Result Raised GuardedQuery) where
  -- The guard answered with this very query, and the estimator, if there is one, with an estimate
  -- that the policy can afford.
  pub record IsCleared (q : GuardedQuery) : Type 0 where
    pub guarded : answer ≡ ok q
    pub affordable :
        (f : GuardedQuery → Result Raised QueryCostEstimate)
        → env.cost_estimator ≡ some f
        → (estimate : QueryCostEstimate) × (f q ≡ ok estimate) × IsAffordable p estimate

  abbrev pub IsLegal : Call → Type 0
  IsLegal (estimated q) = answer ≡ ok q
  IsLegal (executed q) = IsCleared q
  IsLegal (recorded e) = Unit

  abbrev HasLegalCalls : Result Raised (SafeQueryOutcome V) × List Call → Type 0
  HasLegalCalls outcome = All IsLegal outcome.1

  All-append : (xs ys : List Call) → All IsLegal xs → All IsLegal ys → All IsLegal (xs ++ ys)
  All-append [] ys h k = k
  All-append (x ∷ xs) ys h k = (h.0, All-append xs ys h.1 k)

  record_and-legal :
      (r : Report V) (calls : List Call)
      (result : QueryAuditEvent → Result Raised (SafeQueryOutcome V))
      → All IsLegal calls
      → HasLegalCalls (record_and env context r calls result)
  unfolding record_and
  record_and-legal r calls result h = All-append calls (recorded _ ∷ []) h (tt, tt)

  after_execute-legal :
      (q : GuardedQuery) (estimate : Option QueryCostEstimate) (made : List Call)
      (r : Result Raised (QueryExecutionResult V))
      → All IsLegal made
      → HasLegalCalls (after_execute env context p q estimate made r)
  after_execute-legal q estimate made (ok result) h = record_and-legal _ made _ h
  after_execute-legal q estimate made (err (safety error)) h = record_and-legal _ made _ h
  after_execute-legal q estimate made (err unexpected) h = record_and-legal _ made _ h

  run_query-legal :
      (q : GuardedQuery) (estimate : Option QueryCostEstimate) (calls : List Call)
      → All IsLegal calls
      → IsCleared q
      → HasLegalCalls (run_query env context p q estimate calls)
  unfolding run_query
  run_query-legal q estimate calls h c =
      after_execute-legal q estimate (calls ++ executed q ∷ []) (env.executor q p)
        (All-append calls (executed q ∷ []) h (c, tt))

  after_approval-legal :
      (q : GuardedQuery) (estimate : QueryCostEstimate) (reason : Option Code)
      → answer ≡ ok q
      → (reason ≡ none → IsCleared q)
      → HasLegalCalls (after_approval env context p q estimate reason)
  after_approval-legal q estimate none a c =
      run_query-legal q (some estimate) (estimated q ∷ []) (a, tt) (c refl)
  after_approval-legal q estimate (some reason) a c =
      record_and-legal _ (estimated q ∷ []) _ (a, tt)

  within-IsAffordable :
      (estimate : QueryCostEstimate) → approval_reason estimate p ≡ none → IsAffordable p estimate
  unfolding approval_reason
  within-IsAffordable estimate h = ground arith

  after_estimate-legal :
      (q : GuardedQuery) (f : GuardedQuery → Result Raised QueryCostEstimate)
      (r : Result Raised QueryCostEstimate)
      → answer ≡ ok q
      → env.cost_estimator ≡ some f
      → f q ≡ r
      → HasLegalCalls (after_estimate env context p q r)
  after_estimate-legal q f (ok estimate) a e same =
      after_approval-legal q estimate (approval_reason estimate p) a (λ within. record {
        guarded = a;
        affordable = λ f' e'. (
          estimate,
          same_estimator f' f q (sym e' ∙ e) ∙ same,
          within-IsAffordable estimate within,
        );
      })
  after_estimate-legal q f (err (safety error)) a e same =
      record_and-legal _ (estimated q ∷ []) _ (a, tt)
  after_estimate-legal q f (err unexpected) a e same =
      record_and-legal _ (estimated q ∷ []) _ (a, tt)

  with_estimator-legal :
      (q : GuardedQuery) (f : Option (GuardedQuery → Result Raised QueryCostEstimate))
      → answer ≡ ok q
      → env.cost_estimator ≡ f
      → HasLegalCalls (with_estimator env context p q f)
  with_estimator-legal q none a e =
      run_query-legal q none [] tt (record { guarded = a; affordable = λ f e'. cc })
  with_estimator-legal q (some f) a e = after_estimate-legal q f (f q) a e refl

module _ {V : Type 0} (env : Collaborators V) (context : QueryContext) (p : QueryPolicy)
    (u : Unicode) (g : SqlGlot) (sha256_hex : Text → Text) where
  after_guard-IsLegal :
      (sql : Text) (answer r : Result Raised GuardedQuery)
      → answer ≡ r
      → All (IsLegal env context p answer) (after_guard env context p u g sha256_hex sql r).1
  after_guard-IsLegal sql answer (ok q) a =
      with_estimator-legal env context p answer q env.cost_estimator a refl
  after_guard-IsLegal sql answer (err (safety (policy_violation reason))) a =
      record_and-legal env context p answer _ [] _ tt
  after_guard-IsLegal sql answer (err other) a = tt

  -- Every call of `execute_fixed`: a query is estimated only if the guard has answered with it, and
  -- executed only if besides this the estimate, where an estimator is configured, is within the
  -- cost and the rows of the policy.
  pub execute_fixed-IsLegal :
      (sql : Text)
      → All
          (IsLegal env context p (inspect u g sha256_hex sql p))
          (execute_fixed env context p u g sha256_hex sql).1
  unfolding execute_fixed
  execute_fixed-IsLegal sql = after_guard-IsLegal sql (inspect u g sha256_hex sql p) _ refl
