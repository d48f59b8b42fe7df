-- ===== src/QuerySafety/Guard/Checks.antt =====
-- The single checks that `SQLGuard.inspect` makes, in its order.
use enterprise_data_copilot.Prelude.{
  Text, Bool, true, false, not, ◌&&◌, ◌||◌, List, [], ◌∷◌, ◌++◌, Option, none, some, codes,
  contains, if◌then◌else◌, ◌==◌,
}
use enterprise_data_copilot.Prelude.Strings.{is_empty, text_eq}
use enterprise_data_copilot.Prelude.Unicode.{Unicode}
use enterprise_data_copilot.Prelude.Result.{Result, ok, err, ◌>>=◌, ◌>>◌, raise_if}
use enterprise_data_copilot.Codes.{
  Code, sql_parse_error, multiple_statements, non_read_only_statement, forbidden_function,
  function_not_allowed, cross_schema_reference, table_not_allowed, recursive_query_not_allowed,
  cartesian_join_not_allowed, column_not_allowed,
}
use enterprise_data_copilot.QuerySafety.SqlGlot.{
  SqlGlot, Function, Table, Join, boolean, condition, NodeType, ddl, dml, command, copy, into, lock,
  transaction,
}
use enterprise_data_copilot.QuerySafety.Policy.Model.{QueryPolicy}

abbrev pub forbidden_functions : List Text
forbidden_functions =
    codes "dblink"
    ∷ codes "dblink_exec"
    ∷ codes "lo_export"
    ∷ codes "lo_import"
    ∷ codes "nextval"
    ∷ codes "pg_ls_dir"
    ∷ codes "pg_read_binary_file"
    ∷ codes "pg_read_file"
    ∷ codes "pg_sleep"
    ∷ codes "set_config"
    ∷ codes "setval"
    ∷ []

-- `normalized_name in _FORBIDDEN_FUNCTIONS`
unfoldable pub is_forbidden : Text → Bool
is_forbidden name = contains forbidden_functions name

abbrev pub forbidden_nodes : List NodeType
forbidden_nodes = ddl ∷ dml ∷ command ∷ copy ∷ into ∷ lock ∷ transaction ∷ []

-- `any(...)` over what `parse` returned: exactly one statement, which is a query.
unfoldable pub only_statement : {E : Type 0} → Option (List (Option E)) → Result Code E
only_statement none = err sql_parse_error
only_statement (some []) = err multiple_statements
only_statement (some (none ∷ [])) = err non_read_only_statement
only_statement (some (some e ∷ [])) = ok e
only_statement (some (e ∷ f ∷ es)) = err multiple_statements

abbrev pub add_name : Option Text → List Text → List Text
add_name none names = names
add_name (some name) names = name ∷ names

module _ (u : Unicode) where
  -- `function.name if isinstance(function, exp.Anonymous) else function.sql_name()`, in lower case.
  abbrev pub function_name : Function → Text
  function_name f = u.lower (if f.anonymous then f.name else f.sql_name)

  unfoldable pub check_functions : List Function → Result Code (Unit {0})
  check_functions [] = ok tt
  check_functions (f ∷ fs) =
      let rest = check_functions fs in
      if is_forbidden (function_name f)
      then err forbidden_function
      else if f.anonymous
      then err function_not_allowed
      else rest

  -- `str(kind or "").upper() == "CROSS"`
  abbrev pub is_cross : Join → Bool
  is_cross j = u.upper j.kind == codes "CROSS"

  abbrev pub has_condition : Join → Bool
  has_condition j = elim j.on_condition [ none ↦ j.has_using | some _ ↦ true ]

  abbrev pub condition_is_true : Join → Bool
  condition_is_true j = elim j.on_condition [
    | some c ↦ elim c [ boolean b ↦ b | condition ↦ false ]
    | none ↦ false
  ]

  unfoldable pub check_joins : List Join → Result Code (Unit {0})
  check_joins [] = ok tt
  check_joins (j ∷ js) =
      let rest = check_joins js in
      if is_cross j || (not (has_condition j) || condition_is_true j)
      then err cartesian_join_not_allowed
      else rest

  -- `not schema_name and table_name.lower() in cte_names`
  abbrev pub is_cte_reference : List Text → Table → Bool
  is_cte_reference cte_names t = is_empty t.db && contains cte_names (u.lower t.name)

  -- The body of the loop of `_check_tables`: `none` is `continue`, and a name is added otherwise.
  unfoldable pub check_table : List Text → QueryPolicy → Table → Result Code (Option Text)
  check_table cte_names p t =
      if is_cte_reference cte_names t
      then ok none
      else if not (is_empty t.catalog) || (not (is_empty t.db) && not (t.db == p.allowed_schema))
      then err cross_schema_reference
      else if contains p.allowed_tables t.name
      then ok (some (p.allowed_schema ++ codes "." ++ t.name))
      else err table_not_allowed

  -- The names that the statement reads, in the order of the syntax tree.
  unfoldable pub check_tables : List Text → QueryPolicy → List Table → Result Code (List Text)
  unfolding check_table
  check_tables cte_names p [] = ok []
  check_tables cte_names p (t ∷ ts) = do
    name ← check_table cte_names p t
    names ← check_tables cte_names p ts
    ok (add_name name names)

  module _ (g : SqlGlot) where
    unfoldable pub check_query_shape : g.Expression → Result Code (Unit {0})
    unfolding check_joins
    check_query_shape statement = do
      raise_if (g.recursive_with statement) recursive_query_not_allowed
      check_joins (g.joins statement)

    unfoldable pub qualify_columns : g.Expression → QueryPolicy → Result Code g.Expression
    qualify_columns statement p = elim p.allowed_columns [
      | [] ↦ ok statement
      | _ ↦ elim (g.qualify p.allowed_schema p.allowed_columns statement) [
        | none ↦ err column_not_allowed
        | some qualified ↦
            if g.is_query qualified then ok qualified else err non_read_only_statement
      ]
    ]
