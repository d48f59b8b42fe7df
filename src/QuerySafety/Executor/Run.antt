-- ===== src/QuerySafety/Executor/Run.antt =====
-- The run of one guarded query, and the cut of its rows to the limits of the policy.
use enterprise_data_copilot.Prelude.{
  ℕ, ◌+◌, Text, Bool, true, not, ◌||◌, List, [], ◌∷◌, ◌++◌, Option, none, some, codes, length, take,
  is_unique, ltb, if◌then◌else◌, is_none_left,
}
use enterprise_data_copilot.Prelude.Strings.{text_eq, show_nat}
use enterprise_data_copilot.Prelude.Dict.{Dict}
use enterprise_data_copilot.Prelude.Result.{Result, ok, err, ◌>>=◌, ◌>>◌, raise_if}
use enterprise_data_copilot.QuerySafety.Errors.{
  Raised, safety, unexpected, timeout, permission_denied, execution_failed, result_limit,
}
use enterprise_data_copilot.QuerySafety.Policy.Model.{QueryPolicy}
use enterprise_data_copilot.QuerySafety.Guard.Inspect.{GuardedQuery}
use enterprise_data_copilot.QuerySafety.Result.{QueryExecutionResult}
use enterprise_data_copilot.QuerySafety.Executor.Codec.{
  Codec, Statement, execute, Session, answered, query_canceled, insufficient_privilege, other_error,
  unexpected_error,
}

-- `dict(zip(columns, row, strict=True))`; `none` is its `ValueError`.
unfoldable pub zip_strict : {V : Type 0} → List Text → List V → Option (Dict Text V)
zip_strict [] [] = some []
zip_strict [] (v ∷ vs) = none
zip_strict (c ∷ cs) [] = none
zip_strict (c ∷ cs) (v ∷ vs) =
    let rest = zip_strict cs vs in elim rest [ none ↦ none | some d ↦ some ((c, v) ∷ d) ]

-- The loop's variables: the rows taken so far, the newest first, their bytes, and the flag.
pub record Taken (V : Type 0) : Type 0 where
  pub rows : List (Dict Text V)
  pub serialized_bytes : ℕ
  pub truncated : Bool

module _ {Raw V : Type 0} (codec : Codec Raw V) (columns : List Text) (p : QueryPolicy) where
  -- `len(encoded) + (1 if rows else 0)`
  abbrev pub added_size : List ℕ → Taken V → ℕ
  added_size encoded t = length encoded + (if is_none_left t.rows then 0 else 1)

  abbrev pub take_row : List ℕ → Taken V → Taken V
  take_row encoded t = record t {
    rows = t.rows ++ codec.decode_row encoded ∷ [];
    serialized_bytes = t.serialized_bytes + added_size encoded t;
  }

  -- The `for` loop; the branch over the limit is the `break`.
  unfoldable pub take_rows : List (List Raw) → Taken V → Result Raised (Taken V)
  take_rows [] t = ok t
  take_rows (raw ∷ raws) t = elim (zip_strict columns raw) [
    | none ↦ err unexpected
    | some row ↦
        let encoded = codec.encode_row row in
        let rest = take_rows raws (take_row encoded t) in
        if ltb p.max_result_bytes (t.serialized_bytes + added_size encoded t)
        then ok (record t { truncated = true })
        else rest
  ]

  abbrev pub start : List (List Raw) → Taken V
  start raw_rows = record {
    rows = [];
    serialized_bytes = length (codec.encode_header columns);
    truncated = ltb p.max_rows (length raw_rows);
  }

  abbrev pub result_of : Taken V → QueryExecutionResult V
  result_of taken = record {
    columns = columns;
    rows = taken.rows;
    returned_row_count = length taken.rows;
    serialized_bytes = taken.serialized_bytes;
    truncated = taken.truncated;
  }

  unfoldable pub bounded_result : List (List Raw) → Result Raised (QueryExecutionResult V)
  unfolding take_rows
  bounded_result raw_rows = do
    let base_size = length (codec.encode_header columns)
    raise_if (ltb p.max_result_bytes base_size) (safety result_limit)
    taken ← take_rows (take p.max_rows raw_rows) (start raw_rows)
    ok (result_of taken)

-- The statements of one session, in their order.
unfoldable pub session_statements : GuardedQuery → ℕ → List Statement
session_statements q statement_timeout_ms =
    execute (codes "SET TRANSACTION READ ONLY") []
    ∷ execute (codes "SELECT set_config('statement_timeout', %s, true)")
        (show_nat statement_timeout_ms ∷ [])
    ∷ execute q.bounded_sql []
    ∷ []

module _ {Raw V : Type 0} (codec : Codec Raw V) (database : List Statement → Session Raw) where
  -- The body of `with` after the query, and the rows that `fetchmany` returns.
  abbrev fetched :
      GuardedQuery
      → QueryPolicy
      → Option (List Text)
      → List (List Raw)
      → Result Raised (QueryExecutionResult V)
  fetched q p none rows = err (safety execution_failed)
  fetched q p (some columns) rows =
      if ltb p.max_columns (length columns) || not (is_unique columns)
      then err (safety result_limit)
      else bounded_result codec columns p (take q.row_fetch_limit rows)

  unfoldable pub execute_query :
      GuardedQuery → ℕ → QueryPolicy → Result Raised (QueryExecutionResult V)
  unfolding session_statements bounded_result
  execute_query q statement_timeout_ms p =
      elim (database (session_statements q statement_timeout_ms)) [
        | answered description rows ↦ fetched q p description rows
        | query_canceled ↦ err (safety timeout)
        | insufficient_privilege ↦ err (safety permission_denied)
        | other_error ↦ err (safety execution_failed)
        | unexpected_error ↦ err unexpected
      ]
