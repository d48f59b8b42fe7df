-- ===== src/QuerySafety/Guard/Inspect.antt =====
-- `SQLGuard.inspect`, `GuardedQuery` and `fingerprint_query`.
use enterprise_data_copilot.Prelude.{
  ℕ, ◌+◌, Text, not, ◌||◌, List, ◌++◌, codes, any, if◌then◌else◌, map, ltb,
}
use enterprise_data_copilot.Prelude.Strings.{is_empty, strip, show_nat, sorted_set}
use enterprise_data_copilot.Prelude.Unicode.{Unicode}
use enterprise_data_copilot.Prelude.Result.{Result, ok, err, ◌>>=◌, ◌>>◌, raise_if}
use enterprise_data_copilot.Codes.{
  Code, empty_query, non_read_only_statement, forbidden_sql_operation,
}
use enterprise_data_copilot.QuerySafety.SqlGlot.{SqlGlot}
use enterprise_data_copilot.QuerySafety.Errors.{Raised, safety, unexpected, policy_violation}
use enterprise_data_copilot.QuerySafety.Policy.Model.{QueryPolicy}
use enterprise_data_copilot.QuerySafety.Guard.Checks.{
  forbidden_nodes, only_statement, check_functions, check_query_shape, check_tables,
  qualify_columns,
}

pub record GuardedQuery : Type 0 where
  pub normalized_sql : Text
  pub bounded_sql : Text
  pub query_fingerprint : Text
  pub referenced_tables : List Text
  pub row_fetch_limit : ℕ

-- The constraints `min_length=1` and `ge=2` that the constructor of the model checks; a failure is
-- a `ValidationError`, which is no `SQLPolicyViolationError`.
unfoldable pub validated : GuardedQuery → Result Raised GuardedQuery
validated q =
    if is_empty q.normalized_sql || (is_empty q.bounded_sql || ltb q.row_fetch_limit 2)
    then err unexpected
    else ok q

-- `raise SQLPolicyViolationError(code)` for the first check that fails.
abbrev pub violation : {A : Type 0} → Result Code A → Result Raised A
violation (ok a) = ok a
violation (err c) = err (safety (policy_violation c))

unfoldable pub bounded_query : Text → QueryPolicy → Text
bounded_query normalized_sql p =
    codes "SELECT * FROM ("
    ++ (normalized_sql ++ (codes ") AS _copilot_bounded LIMIT " ++ show_nat (p.max_rows + 1)))

-- The checks up to the qualified statement, with the tables that it reads.
unfoldable pub accept :
    (u : Unicode) (g : SqlGlot) → Text → QueryPolicy → Result Code (g.Expression × List Text)
accept u g query p = do
  raise_if (is_empty (strip query)) empty_query
  statement ← only_statement (g.parse query)
  raise_if (not (g.is_query statement)) non_read_only_statement
  raise_if (any (g.has_node statement) forbidden_nodes) forbidden_sql_operation
  check_functions u (g.functions statement)
  check_query_shape u g statement
  tables ← check_tables u (map u.lower (g.cte_names statement)) p (g.tables statement)
  qualified ← qualify_columns u g statement p
  ok (qualified, tables)

module _ (u : Unicode) (g : SqlGlot) (sha256_hex : Text → Text) where
  unfoldable pub fingerprint_query : Text → Text
  fingerprint_query query = codes "sha256:" ++ sha256_hex query

  -- The call `GuardedQuery(...)`, before its validation.
  unfoldable pub guarded_query : Text → QueryPolicy → List Text → GuardedQuery
  unfolding bounded_query fingerprint_query
  guarded_query normalized_sql p tables = record {
    normalized_sql = normalized_sql;
    bounded_sql = bounded_query normalized_sql p;
    query_fingerprint = fingerprint_query normalized_sql;
    referenced_tables = sorted_set tables;
    row_fetch_limit = p.max_rows + 1;
  }

  unfoldable pub inspect : Text → QueryPolicy → Result Raised GuardedQuery
  unfolding accept validated guarded_query
  inspect query p = do
    (statement, tables) ← violation (accept u g query p)
    validated (guarded_query (g.sql statement) p tables)
