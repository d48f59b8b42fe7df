-- ===== src/QuerySafety/Cost.antt =====
-- agent-service/app/query_safety/cost.py. How a session of the database ends and what the runtime
-- makes of the values that it returns are parameters.
use enterprise_data_copilot.Prelude.{ℕ, Text, List, [], ◌∷◌, ◌++◌, Option, none, some, codes}
use enterprise_data_copilot.Prelude.Strings.{show_nat}
use enterprise_data_copilot.Prelude.Result.{Result, ok, err}
use enterprise_data_copilot.QuerySafety.Errors.{
  Raised, safety, unexpected, timeout, permission_denied, execution_failed,
}
use enterprise_data_copilot.QuerySafety.Guard.Inspect.{GuardedQuery}
use enterprise_data_copilot.QuerySafety.Result.{QueryCostEstimate}
use enterprise_data_copilot.QuerySafety.Executor.Codec.{Statement, execute}

-- `float` or `int` of a value: the number, one below zero or none at all, a `TypeError` or a
-- `ValueError`, or an `OverflowError`.
pub data Reading : Type 0 where
  number : ℕ → Reading
  below refused overflow : Reading

-- The values of the driver. `none` is a `ValueError` of `parse`, and an `IndexError`, a `KeyError` or
-- a `TypeError` of a subscript.
pub record PlanReader (Value : Type 0) : Type 0 where
  pub as_text : Value → Option Text
  pub parse : Text → Option Value
  pub first : Value → Option Value
  pub field : Text → Value → Option Value
  pub to_float : Value → Reading
  pub to_int : Value → Reading

-- How the session ends: with `row[0] if row else None`, or with an exception.
pub data PlanSession (Value : Type 0) : Type 0 where
  planned : Value → PlanSession Value
  query_canceled insufficient_privilege other_error unexpected_error : PlanSession Value

-- The statements of one session, in their order.
unfoldable pub plan_statements : GuardedQuery → ℕ → List Statement
plan_statements q statement_timeout_ms =
    execute (codes "SET TRANSACTION READ ONLY") []
    ∷ execute (codes "SELECT set_config('statement_timeout', %s, true)")
        (show_nat statement_timeout_ms ∷ [])
    ∷ execute (codes "EXPLAIN (FORMAT JSON) " ++ q.normalized_sql) []
    ∷ []

-- The constructor of `QueryCostEstimate`, whose fields are at least 0, after both conversions.
abbrev pub estimate_of : Reading → Reading → Result Raised QueryCostEstimate
estimate_of overflow rows = err unexpected
estimate_of refused rows = err (safety execution_failed)
estimate_of (number cost) (number rows) = ok (record { total_cost = cost; plan_rows = rows })
estimate_of (number cost) below = err (safety execution_failed)
estimate_of (number cost) refused = err (safety execution_failed)
estimate_of (number cost) overflow = err unexpected
estimate_of below (number rows) = err (safety execution_failed)
estimate_of below below = err (safety execution_failed)
estimate_of below refused = err (safety execution_failed)
estimate_of below overflow = err unexpected

module _ {Value : Type 0} (reader : PlanReader Value) where
  -- `if isinstance(payload, str): payload = json.loads(payload)`
  abbrev pub decoded : Value → Option Text → Option Value
  decoded payload none = some payload
  decoded payload (some text) = reader.parse text

  abbrev pub subscript : (Value → Option Value) → Option Value → Option Value
  subscript part none = none
  subscript part (some value) = part value

  -- `payload[0]["Plan"]`
  abbrev pub plan_of : Value → Option Value
  plan_of payload =
      subscript (reader.field (codes "Plan"))
        (subscript reader.first (decoded payload (reader.as_text payload)))

  -- `convert(plan[name])`
  abbrev pub read_as : (Value → Reading) → Option Value → Reading
  read_as convert none = refused
  read_as convert (some value) = convert value

  abbrev pub read_plan : Option Value → Result Raised QueryCostEstimate
  read_plan none = err (safety execution_failed)
  read_plan (some plan) =
      estimate_of (read_as reader.to_float (reader.field (codes "Total Cost") plan))
        (read_as reader.to_int (reader.field (codes "Plan Rows") plan))

  abbrev pub after_session : PlanSession Value → Result Raised QueryCostEstimate
  after_session (planned payload) = read_plan (plan_of payload)
  after_session query_canceled = err (safety timeout)
  after_session insufficient_privilege = err (safety permission_denied)
  after_session other_error = err (safety execution_failed)
  after_session unexpected_error = err unexpected

  -- `estimate`
  unfoldable pub estimate_query :
      (List Statement → PlanSession Value) → ℕ → GuardedQuery → Result Raised QueryCostEstimate
  unfolding plan_statements
  estimate_query database statement_timeout_ms q =
      after_session (database (plan_statements q statement_timeout_ms))
