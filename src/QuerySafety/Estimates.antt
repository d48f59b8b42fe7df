-- ===== src/QuerySafety/Estimates.antt =====
-- What the estimator of the cost raises.
use enterprise_data_copilot.Prelude.{ℕ, List, Option, none, some, ◌≡◌, ◌⊎◌, inl, inr, refl}
use enterprise_data_copilot.Prelude.Result.{Result, ok, err}
use enterprise_data_copilot.QuerySafety.Errors.{
  Raised, safety, unexpected, timeout, permission_denied, execution_failed,
}
use enterprise_data_copilot.QuerySafety.Guard.Inspect.{GuardedQuery}
use enterprise_data_copilot.QuerySafety.Result.{QueryCostEstimate}
use enterprise_data_copilot.QuerySafety.Executor.Codec.{Statement}
use enterprise_data_copilot.QuerySafety.Cost.{
  Reading, number, below, refused, overflow, PlanReader, PlanSession, planned, query_canceled,
  insufficient_privilege, other_error, unexpected_error, estimate_of, read_plan, plan_of,
  after_session, estimate_query,
}

-- An estimate, a timeout, a missing permission, a failure, or an exception of another hierarchy.
abbrev IsEstimated : Result Raised QueryCostEstimate → Type 0
IsEstimated r =
    ((e : QueryCostEstimate) × (r ≡ ok e))
    ⊎ ((r ≡ err unexpected)
        ⊎ ((r ≡ err (safety timeout))
            ⊎ ((r ≡ err (safety permission_denied)) ⊎ (r ≡ err (safety execution_failed)))))

abbrev failure : IsEstimated (err (safety execution_failed))
failure = inr (inr (inr (inr refl)))

estimate_of-IsEstimated : (cost rows : Reading) → IsEstimated (estimate_of cost rows)
estimate_of-IsEstimated overflow rows = inr (inl refl)
estimate_of-IsEstimated refused rows = failure
estimate_of-IsEstimated (number c) (number r) = inl (_, refl)
estimate_of-IsEstimated (number c) below = failure
estimate_of-IsEstimated (number c) refused = failure
estimate_of-IsEstimated (number c) overflow = inr (inl refl)
estimate_of-IsEstimated below (number r) = failure
estimate_of-IsEstimated below below = failure
estimate_of-IsEstimated below refused = failure
estimate_of-IsEstimated below overflow = inr (inl refl)

module _ {Value : Type 0} (reader : PlanReader Value) where
  read_plan-IsEstimated : (plan : Option Value) → IsEstimated (read_plan reader plan)
  read_plan-IsEstimated none = failure
  read_plan-IsEstimated (some plan) = estimate_of-IsEstimated _ _

  after_session-IsEstimated : (s : PlanSession Value) → IsEstimated (after_session reader s)
  after_session-IsEstimated (planned payload) = read_plan-IsEstimated (plan_of reader payload)
  after_session-IsEstimated query_canceled = inr (inr (inl refl))
  after_session-IsEstimated insufficient_privilege = inr (inr (inr (inl refl)))
  after_session-IsEstimated other_error = failure
  after_session-IsEstimated unexpected_error = inr (inl refl)

  -- The estimator never raises an error of the policy, of an approval or of the audit.
  estimate_query-IsEstimated :
      (database : List Statement → PlanSession Value) (statement_timeout_ms : ℕ) (q : GuardedQuery)
      → IsEstimated (estimate_query reader database statement_timeout_ms q)
  unfolding estimate_query
  estimate_query-IsEstimated database statement_timeout_ms q = after_session-IsEstimated _
