-- ===== src/Agent/Actions/Guarding.antt =====
-- `guard_sql`, `execute_sql` and `_controlled_references`.
use enterprise_data_copilot.Prelude.{
  ℕ, ◌^◌, Text, Bool, List, [], ◌∷◌, ◌++◌, none, some, codes, contains, ltb, is_none_left, not,
  if◌then◌else◌,
}
use enterprise_data_copilot.Prelude.Strings.{is_empty, text_eq}
use enterprise_data_copilot.Prelude.Dict.{Dict, lookup, insert}
use enterprise_data_copilot.Prelude.Unicode.{Unicode}
use enterprise_data_copilot.Prelude.Result.{Result, ok, err, ◌>>=◌}
use enterprise_data_copilot.Codes.{
  Code, total_cost_limit_exceeded, plan_rows_limit_exceeded, controlled_sensitive_column,
  low_model_confidence,
}
use enterprise_data_copilot.QuerySafety.SqlGlot.{SqlGlot, Table, Column}
use enterprise_data_copilot.QuerySafety.Errors.{Raised, safety, unexpected, policy_violation}
use enterprise_data_copilot.QuerySafety.Policy.Model.{QueryPolicy}
use enterprise_data_copilot.QuerySafety.Guard.Inspect.{GuardedQuery, inspect, validated}
use enterprise_data_copilot.QuerySafety.Result.{QueryCostEstimate, QueryExecutionResult}
use enterprise_data_copilot.Agent.State.{
  AgentState, Update, no_update, safe, approval, repair, get_or, attempts_of,
}
use enterprise_data_copilot.Agent.Failures.{Failure, query}
use enterprise_data_copilot.Agent.Actions.Backend.{Backend, required, validation_error, of_raised}
use enterprise_data_copilot.Agent.Actions.Schema.{revalidated}

-- `{table.alias_or_name: table.name for table in ...}`
abbrev pub aliases_from : Dict Text Text → List Table → Dict Text Text
aliases_from aliases [] = aliases
aliases_from aliases (t ∷ ts) = aliases_from (insert t.alias_or_name t.name aliases) ts

-- `aliases.get(column.table, column.table)`
abbrev pub table_of_column : Dict Text Text → Column → Text
table_of_column aliases c = get_or c.table (lookup c.table aliases)

abbrev pub qualified_name : Dict Text Text → Column → Text
qualified_name aliases c =
    let table = table_of_column aliases c in
    if is_empty table then [] else table ++ (codes "." ++ c.name)

-- The loop over the columns; a name that is found again is left out.
abbrev pub found_from : List Text → Dict Text Text → List Column → List Text
found_from controlled aliases [] = []
found_from controlled aliases (c ∷ cs) =
    let found = found_from controlled aliases cs in
    let name = qualified_name aliases c in
    if contains controlled name then if contains found name then found else name ∷ found else found

-- `if test: reasons.append(code)`
abbrev pub reason_if : Bool → Code → List Code
reason_if test code = if test then code ∷ [] else []

-- `1.0`
unfoldable pub full_confidence : ℕ
full_confidence = 2 ^ 1074

module _ {V : Type 0} (u : Unicode) (g : SqlGlot) (sha256_hex : Text → Text)
    (b : Backend V g.Expression) where
  abbrev pub references : g.Expression → List Text
  references e = found_from b.controlled_columns (aliases_from [] (g.tables e)) (g.columns e)

  unfoldable pub controlled_references : Text → Result Failure (List Text)
  controlled_references text = do statement ← b.parse_one text; ok (references statement)

  unfoldable pub risk_reasons :
      AgentState V → QueryPolicy → List Text → QueryCostEstimate → List Code
  unfolding full_confidence
  risk_reasons s policy controlled estimate =
      reason_if (ltb policy.max_total_cost estimate.total_cost) total_cost_limit_exceeded
      ++ (reason_if (ltb policy.max_plan_rows estimate.plan_rows) plan_rows_limit_exceeded
          ++ (reason_if (not (is_none_left controlled)) controlled_sensitive_column
              ++ reason_if
                  (ltb (get_or full_confidence s.values.selection_confidence) b.minimum_confidence)
                  low_model_confidence))

  abbrev pub verdict : GuardedQuery → List Code → Update V
  verdict guarded reasons = record no_update {
    sql_risk = some (if is_none_left reasons then safe else approval);
    risk_reasons = some reasons;
    sql_fingerprint = some guarded.query_fingerprint;
    guarded_query = some guarded;
    error_code = some none;
  }

  -- What follows the `try`, on the answer of the guard.
  abbrev pub after_inspection :
      AgentState V → QueryPolicy → Result Raised GuardedQuery → Result Failure (Update V)
  after_inspection s policy (err (safety (policy_violation reason))) = ok (record no_update {
    sql_risk = some repair;
    risk_reasons = some (reason ∷ []);
    error_code = some (some reason);
  })
  after_inspection s policy (err (safety e)) = err (query e)
  after_inspection s policy (err unexpected) = err validation_error
  after_inspection s policy (ok guarded) = do
    controlled ← controlled_references guarded.normalized_sql
    estimate ← of_raised b.broken (b.estimate (attempts_of s) guarded)
    ok (verdict guarded (risk_reasons s policy controlled estimate))

  unfoldable pub guard_sql : AgentState V → Result Failure (Update V)
  unfolding controlled_references risk_reasons
  guard_sql s = do
    stored ← required s.values.query_policy
    policy ← revalidated u stored
    text ← required s.values.sql_text
    after_inspection s policy (inspect u g sha256_hex text policy)

  abbrev pub executed : Result Raised (QueryExecutionResult V) → Result Failure (Update V)
  executed answer = do
    result ← of_raised b.broken answer
    ok (record no_update {
      columns = some result.columns;
      rows = some result.rows;
      result_truncated = some result.truncated;
      error_code = some none;
    })

  unfoldable pub execute_sql : AgentState V → Result Failure (Update V)
  execute_sql s = do
    kept ← required s.values.guarded_query
    guarded ← of_raised validation_error (validated kept)
    stored ← required s.values.query_policy
    policy ← revalidated u stored
    executed (b.execute (attempts_of s) guarded policy)
