-- ===== src/QuerySafety/Policy/Model.antt =====
-- The policy, its validators and the two ways to make one.
use enterprise_data_copilot.Prelude.{
  ℕ, Text, Bool, false, not, ◌&&◌, ◌||◌, List, [], ◌∷◌, map, none, some, ltb, leb, all, is_subset,
  is_none_left, if◌then◌else◌,
}
use enterprise_data_copilot.Prelude.Strings.{is_empty, sorted_set, text_eq, replace_char}
use enterprise_data_copilot.Prelude.Dict.{Dict, lookup, insert}
use enterprise_data_copilot.Prelude.Unicode.{Unicode}
use enterprise_data_copilot.Prelude.Result.{Result, ok, err}
use enterprise_data_copilot.Metadata.Snapshot.{SchemaSnapshot, TableMetadata, ColumnMetadata}

pub record QueryPolicy : Type 0 where
  pub allowed_schema : Text
  pub allowed_tables : List Text
  pub allowed_columns : Dict Text (List Text)
  pub max_rows : ℕ
  pub max_columns : ℕ
  pub max_result_bytes : ℕ
  pub max_total_cost : ℕ
  pub max_plan_rows : ℕ

-- The keyword arguments `**limits` of `from_snapshot`, with the defaults filled in.
pub record Limits : Type 0 where
  pub max_rows : ℕ
  pub max_columns : ℕ
  pub max_result_bytes : ℕ
  pub max_total_cost : ℕ
  pub max_plan_rows : ℕ

-- `ValueError`, which is also what a failed validation raises.
pub data ValueError : Type 0 where
  value_error : ValueError

-- One character of `[a-z_]`, and of `[a-z0-9_]`.
abbrev pub is_name_start : ℕ → Bool
is_name_start c = (leb b'a' c && leb c b'z') || leb b'_' c && leb c b'_'

abbrev pub is_name_part : ℕ → Bool
is_name_part c = is_name_start c || leb b'0' c && leb c b'9'

-- `^[a-z_][a-z0-9_]*$`
abbrev pub is_identifier : Text → Bool
is_identifier [] = false
is_identifier (c ∷ s) = is_name_start c && all is_name_part s

abbrev pub in_range : ℕ → ℕ → ℕ → Bool
in_range lo hi n = leb lo n && leb n hi

abbrev pub are_valid_limits : QueryPolicy → Bool
are_valid_limits p =
    in_range 1 10000 p.max_rows
    && in_range 1 500 p.max_columns
    && in_range 64 10000000 p.max_result_bytes
    && ltb 0 p.max_total_cost
    && leb 1 p.max_plan_rows

module _ (u : Unicode) where
  -- `str.isalnum`
  abbrev pub is_alnum_text : Text → Bool
  is_alnum_text s = not (is_empty s) && all u.is_alnum s

  -- `name and name.replace("_", "a").isalnum()`
  abbrev pub is_simple_name : Text → Bool
  is_simple_name name = not (is_empty name) && is_alnum_text (replace_char b'_' b'a' name)

  abbrev pub are_simple_columns : Dict Text (List Text) → Bool
  are_simple_columns columns = all (λ e. is_simple_name e.0 && all is_simple_name e.1) columns

  -- The field constraints and the two validators.
  abbrev pub is_valid_policy : QueryPolicy → Bool
  is_valid_policy p =
      is_identifier p.allowed_schema
      && not (is_none_left p.allowed_tables)
      && all is_simple_name p.allowed_tables
      && are_simple_columns p.allowed_columns
      && are_valid_limits p

  unfoldable pub columns_by_table :
      List TableMetadata → Dict Text (List Text) → Dict Text (List Text)
  columns_by_table [] columns = columns
  columns_by_table (t ∷ ts) columns =
      columns_by_table ts (insert t.name (map (λ (c : ColumnMetadata). c.name) t.columns) columns)

  unfoldable pub snapshot_policy : SchemaSnapshot → Limits → QueryPolicy
  unfolding columns_by_table
  snapshot_policy snapshot limits = record {
    allowed_schema = snapshot.schema_name;
    allowed_tables = map (λ (t : TableMetadata). t.name) snapshot.tables;
    allowed_columns = columns_by_table snapshot.tables [];
    max_rows = limits.max_rows;
    max_columns = limits.max_columns;
    max_result_bytes = limits.max_result_bytes;
    max_total_cost = limits.max_total_cost;
    max_plan_rows = limits.max_plan_rows;
  }

  unfoldable pub from_snapshot : SchemaSnapshot → Limits → Result ValueError QueryPolicy
  unfolding snapshot_policy
  from_snapshot snapshot limits =
      let policy = snapshot_policy snapshot limits in
      if is_valid_policy policy then ok policy else err value_error

-- `{table: columns[table] for table in names if table in columns}`
unfoldable pub restrict_columns : List Text → Dict Text (List Text) → Dict Text (List Text)
restrict_columns [] columns = []
restrict_columns (t ∷ ts) columns =
    let rest = restrict_columns ts columns in
    elim (lookup t columns) [ none ↦ rest | some names ↦ (t, names) ∷ rest ]

-- `model_copy` runs no validator.
unfoldable pub restricted : QueryPolicy → List Text → QueryPolicy
restricted p table_names = record p {
  allowed_tables = table_names;
  allowed_columns = restrict_columns (sorted_set table_names) p.allowed_columns;
}

unfoldable pub restrict_to_tables : QueryPolicy → List Text → Result ValueError QueryPolicy
restrict_to_tables p table_names =
    if is_none_left table_names || not (is_subset table_names p.allowed_tables)
    then err value_error
    else ok (restricted p table_names)
