-- ===== src/Nl2sql/Tables.antt =====
-- agent-service/app/nl2sql/table_references.py.
use enterprise_data_copilot.Prelude.{
  Text, not, ◌&&◌, List, [], ◌∷◌, ◌++◌, map, codes, is_unique, is_none_left, if◌then◌else◌, ◌==◌,
}
use enterprise_data_copilot.Prelude.Strings.{is_empty, split_on, sorted_set, text_eq}
use enterprise_data_copilot.Prelude.Result.{Result, ok, err, ◌>>=◌, ◌>>◌, raise_if}
use enterprise_data_copilot.Nl2sql.Errors.{Nl2sqlError, schema_selection}

-- The body of the loop, on `value.split(".")`.
unfoldable pub table_of : Text → List Text → Result Nl2sqlError Text
table_of allowed_schema (table ∷ []) = if is_empty table then err schema_selection else ok table
table_of allowed_schema (schema ∷ table ∷ []) =
    if schema == allowed_schema && not (is_empty table) then ok table else err schema_selection
table_of allowed_schema other = err schema_selection

unfoldable pub tables_of : Text → List Text → Result Nl2sqlError (List Text)
tables_of allowed_schema [] = ok []
tables_of allowed_schema (value ∷ values) = do
  table ← table_of allowed_schema (split_on b'.' value)
  tables ← tables_of allowed_schema values
  ok (table ∷ tables)

unfoldable pub normalize_reported_tables : Text → List Text → Result Nl2sqlError (List Text)
unfolding tables_of
normalize_reported_tables allowed_schema values = do
  tables ← tables_of allowed_schema values
  raise_if (not (is_unique tables)) schema_selection
  ok tables

-- The names that the model of `catalog_selection_model` accepts.
unfoldable pub catalog_names : Text → List Text → Result Nl2sqlError (List Text)
catalog_names allowed_schema allowed_tables =
    if is_none_left allowed_tables
    then err schema_selection
    else ok (
        sorted_set
          (allowed_tables ++ map (λ name. allowed_schema ++ codes "." ++ name) allowed_tables))
